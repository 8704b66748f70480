-- ===== src/Js/Value.antt =====
-- A JavaScript value whose type is not known, as `unknown` in the source.
use kei_transaction.Common.Tests.{ℕ, suc, Bool}
use kei_transaction.Js.Text.{Text}
use kei_transaction.Js.Number.{Number}

-- `object plain fields` tells whether the prototype is that of an object literal, or none. `other` is a value of any further type. An array has
-- holes, and an object accessors, besides values.
mutual
  pub data Value : Type 0 where
    absent : Value
    null : Value
    string : Text → Value
    number : Number → Value
    boolean : Bool → Value
    array : Items → Value
    object : Bool → Fields → Value
    other : Value

  pub data Items : Type 0 where
    no_item : Items
    item_then : Value → Items → Items
    hole_then : Items → Items

  pub data Fields : Type 0 where
    no_field : Fields
    field_then : Text → Value → Fields → Fields
    accessor_then : Text → Fields → Fields

-- `array.length`
unfoldable pub count_items : Items → ℕ
count_items no_item = 0
count_items (item_then value items) = suc (count_items items)
count_items (hole_then items) = suc (count_items items)

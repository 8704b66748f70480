-- ===== src/Core/Swaps.antt =====
-- packages/core/src/swaps.ts. Every refusal has one code; what it says of the value is left out.
pub mod Rows
use kei_transaction.Common.Tests.{
  ℕ, suc, ◌+◌, ◌-◌, ◌*◌, ◌^◌, Bool, true, false, not, ◌&&◌, ◌||◌, Option, none, some, List, [], ◌∷◌,
  leb, ltb, eqb, if◌then◌else◌,
}
use kei_transaction.Common.Eq.{◌==◌, text_eq}
use kei_transaction.Common.Lists.{length, all}
use kei_transaction.Js.Text.{Text, text, upper}
use kei_transaction.Js.Number.{
  Number, whole, negative, fraction, is_digit, decimal_from, max_safe_integer,
}
use kei_transaction.Js.Value.{
  Value, absent, null, string, number, boolean, array, object, other, Items, no_item, item_then,
  hole_then, Fields, no_field, field_then, accessor_then, count_items,
}
use kei_transaction.Core.Errors.{Result, ok, err, fail_if, invalid_node_response, ◌>>=◌, ◌>>◌}
use kei_transaction.Core.Crypto.{Crypto}
use kei_transaction.Core.Hex.{is_hex}
use kei_transaction.Core.Address.{public_key_from_address}
use kei_transaction.Ledger.State.{SwapState, pending, accepted, cancelled}
use kei_transaction.Ledger.Reads.{SwapOffer}

abbrev pub max_raw : ℕ
max_raw = 2 ^ 128 - 1

abbrev pub refuse {ℓ} : {A : Type ℓ} → Result A
refuse = err invalid_node_response

-- `field`: the value of an own field.
unfoldable pub field_of : Fields → Text → Result Value
field_of no_field key = refuse
field_of (field_then name value rest) key = if name == key then ok value else field_of rest key
field_of (accessor_then name rest) key = if name == key then refuse else field_of rest key

unfoldable pub hex_field : Value → Result Text
hex_field (string s) = if is_hex s (some 32) then ok (upper s) else refuse
hex_field _ = refuse

-- The pattern `RAW`.
unfoldable pub is_raw : Text → Bool
is_raw [] = false
is_raw (c ∷ s) = leb b'1' c && leb c b'9' && all is_digit s

unfoldable pub amount_field : Value → Result Text
unfolding is_raw
amount_field (string s) = if is_raw s && leb (decimal_from 0 s) max_raw then ok s else refuse
amount_field _ = refuse

unfoldable pub whole_field : ℕ → Value → Result ℕ
whole_field floor (number (whole n)) =
    if leb n max_safe_integer && leb floor n then ok n else refuse
whole_field floor _ = refuse

-- `orNull`
abbrev pub or_null : {A : Type 0} → (Value → Result A) → Value → Result (Option A)
or_null read null = ok none
or_null read value = do a ← read value; ok (some a)

unfoldable pub state_field : Value → Result SwapState
state_field (string s) =
    if s == text "open"
    then ok pending
    else if s == text "accepted"
    then ok accepted
    else if s == text "cancelled"
    then ok cancelled
    else refuse
state_field _ = refuse

abbrev pub is_there {ℓ} : {A : Type ℓ} → Option A → Bool
is_there none = false
is_there (some a) = true

-- What settles an offer, as its state has it.
unfoldable pub settles_as : SwapState → Option Text → Option Text → Option ℕ → Bool
settles_as pending settled_by accepted_by settled_at =
    not (is_there settled_by || is_there accepted_by || is_there settled_at)
settles_as accepted settled_by accepted_by settled_at =
    is_there settled_by && is_there accepted_by && is_there settled_at
settles_as cancelled settled_by accepted_by settled_at =
    is_there settled_by && not (is_there accepted_by) && is_there settled_at

abbrev as_number : Option ℕ → Option Number
as_number none = none
as_number (some n) = some (whole n)

module _ ⦃c : Crypto⦄ where
  -- address.ts
  unfoldable pub is_address : Value → Bool
  is_address (string s) = elim (public_key_from_address s) [ err _ ↦ false | ok _ ↦ true ]
  is_address _ = false

  unfoldable pub address_field : Value → Result Text
  unfolding is_address
  address_field (string s) = if is_address (string s) then ok s else refuse
  address_field _ = refuse

  -- The fields of a row, read one after the other.
  unfoldable pub read_row : Fields → Result SwapOffer
  unfolding field_of hex_field amount_field whole_field state_field address_field
  read_row row = do
    hash ← field_of row (text "hash") >>= hex_field
    from ← field_of row (text "from") >>= address_field
    asset ← field_of row (text "asset") >>= hex_field
    amount ← field_of row (text "amount") >>= amount_field
    want_asset ← field_of row (text "wantAsset") >>= hex_field
    want_amount ← field_of row (text "wantAmount") >>= amount_field
    counterparty ← field_of row (text "counterparty") >>= or_null address_field
    expires_at ← field_of row (text "expiresAt") >>= or_null (whole_field 1)
    state ← field_of row (text "state") >>= state_field
    settled_by ← field_of row (text "settledBy") >>= or_null hex_field
    accepted_by ← field_of row (text "acceptedBy") >>= or_null address_field
    height ← field_of row (text "height") >>= whole_field 1
    seen_at ← field_of row (text "seenAt") >>= whole_field 0
    settled_at ← field_of row (text "settledAt") >>= or_null (whole_field 0)
    ok (record {
      hash = hash;
      from = from;
      asset = asset;
      amount = amount;
      want_asset = want_asset;
      want_amount = want_amount;
      counterparty = counterparty;
      expires_at = as_number expires_at;
      state = state;
      settled_by = settled_by;
      accepted_by = accepted_by;
      height = height;
      seen_at = seen_at;
      settled_at = settled_at;
    })

  abbrev pub fits_state : SwapOffer → Bool
  fits_state offer = settles_as offer.state offer.settled_by offer.accepted_by offer.settled_at

  unfoldable pub parse_swap_offer : Value → Result SwapOffer
  unfolding read_row settles_as
  parse_swap_offer (object true row) = do
    offer ← read_row row
    fail_if (not (fits_state offer)) invalid_node_response
    ok offer
  parse_swap_offer _ = refuse

  -- `responseObject`, then `envelopeField`, of an answer that is read from JSON and has no accessors.
  unfoldable pub envelope_field : Value → Text → Result Value
  unfolding field_of
  envelope_field (object plain fields) key = field_of fields key
  envelope_field _ key = refuse

  unfoldable pub read_info : Value → Text → Result (Option SwapOffer)
  unfolding parse_swap_offer
  read_info null hash = ok none
  read_info value hash = do
    parsed ← parse_swap_offer value
    fail_if (not (parsed.hash == upper hash)) invalid_node_response
    ok (some parsed)

  unfoldable pub parse_swap_info : Value → Text → Result (Option SwapOffer)
  unfolding envelope_field read_info
  parse_swap_info body hash = do offer ← envelope_field body (text "offer"); read_info offer hash

  abbrev pub is_state : SwapState → SwapState → Bool
  is_state pending pending = true
  is_state accepted accepted = true
  is_state cancelled cancelled = true
  is_state _ _ = false

  abbrev pub asked_for : Option SwapState → SwapState → Bool
  asked_for none state = true
  asked_for (some wanted) state = is_state state wanted

  unfoldable pub parse_rows : Text → Option SwapState → Items → Result (List SwapOffer)
  unfolding parse_swap_offer
  parse_rows account wanted no_item = ok []
  parse_rows account wanted (hole_then items) = refuse
  parse_rows account wanted (item_then value items) = do
    row ← parse_swap_offer value
    fail_if (not (row.from == account)) invalid_node_response
    fail_if (not (asked_for wanted row.state)) invalid_node_response
    rows ← parse_rows account wanted items
    ok (row ∷ rows)

  unfoldable pub read_page : Text → ℕ → Option SwapState → Value → Result (List SwapOffer)
  unfolding parse_rows
  read_page account limit wanted (array items) = do
    fail_if (ltb limit (count_items items)) invalid_node_response
    parse_rows account wanted items
  read_page account limit wanted _ = refuse

  unfoldable pub parse_account_swaps : Value → Text → ℕ → Option SwapState → Result (List SwapOffer)
  unfolding envelope_field read_page
  parse_account_swaps body account limit wanted = do
    offers ← envelope_field body (text "offers")
    read_page account limit wanted offers

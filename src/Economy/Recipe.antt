-- ===== src/Economy/Recipe.antt =====
-- packages/economy/src/recipe.ts. A value arrives as its type declares it; what the source asks of the
-- type itself (`typeof`, `Array.isArray`) holds of every value here. Messages, and the names that only
-- they use, are left out.
pub mod Shapes
use kei_transaction.Common.Tests.{
  ℕ, suc, ◌+◌, ◌*◌, ◌^◌, Bool, true, false, not, ◌&&◌, ◌||◌, Option, none, some, List, [], ◌∷◌,
  ◌++◌, eqb, leb, if◌then◌else◌,
}
use kei_transaction.Common.Eq.{◌==◌, text_eq}
use kei_transaction.Common.Lists.{length, all}
use kei_transaction.Dict.{Dict, contains, insert}
use kei_transaction.Js.Text.{Text, text, trim}
use kei_transaction.Js.Number.{decimal_from}
use kei_transaction.Core.Errors.{
  Result, ok, err, fail_if, bad_recipe, duplicate_recipe, empty_recipe, not_one_block, bad_sink,
  bad_stack, bad_asset, bad_amount, ◌>>=◌, ◌>>◌,
}
use kei_transaction.Core.Crypto.{Crypto}
use kei_transaction.Core.Address.{assert_address}
use kei_transaction.Core.Amount.Raw.{
  AmountInput, typed, printed, not_finite, starts_with, match_decimal,
}

-- A text, or an object with some of the fields.
pub data AssetRef : Type 0 where
  named : Text → AssetRef
  fields : Option Text → Option Text → Option Text → AssetRef

-- `amount` is absent where the source has `undefined`.
pub record Stack : Type 0 where
  pub asset : AssetRef
  pub amount : Option AmountInput

pub data RecipeStrategy : Type 0 where
  grant sink exchange : RecipeStrategy

-- 'burn' and 'issuer'.
pub data SinkPolicy : Type 0 where
  to_nobody to_issuer : SinkPolicy

-- `expiresIn` is carried through unread, as its text.
pub record RecipeSpec : Type 0 where
  pub id : Text
  pub name : Option Text
  pub description : Option Text
  pub requires : List Stack
  pub costs : List Stack
  pub grants : List Stack
  pub sink : Option Text
  pub issuer : Option Text
  pub expires_in : Option Text

pub record Recipe : Type 0 where
  pub id : Text
  pub name : Text
  pub description : Option Text
  pub strategy : RecipeStrategy
  pub requires : List Stack
  pub costs : List Stack
  pub grants : List Stack
  pub sink : SinkPolicy
  pub issuer : Option Text
  pub expires_in : Option Text

-- Whether a text that is there has characters left when trimmed.
abbrev pub has_text : Option Text → Bool
has_text none = false
has_text (some s) = not (eqb (length (trim s)) 0)

unfoldable pub names_an_asset : AssetRef → Bool
names_an_asset (named s) = has_text (some s)
names_an_asset (fields none symbol issuer) = has_text symbol
names_an_asset (fields (some id) symbol issuer) = not (eqb (length id) 0) || has_text symbol

-- `Number(text) <= 0` of a decimal without a sign that counts below zero: zero itself, and what is so near to zero that the
-- nearest number is zero, which is at most 2^-1075.
unfoldable pub rounds_to_zero : Text × Text → Bool
rounds_to_zero (whole, fraction) =
    leb (decimal_from 0 (whole ++ fraction) * 2 ^ 1075) (10 ^ length fraction)

-- The guard on an amount. The text of a number is "0" or has a sign when the number is not above zero.
unfoldable pub positive_amount : AmountInput → Bool
unfolding rounds_to_zero
positive_amount not_finite = false
positive_amount (printed s) = not (starts_with b'-' s || s == text "0")
positive_amount (typed s) = elim (match_decimal (trim s)) [
  | none ↦ false
  | some groups ↦ not (rounds_to_zero groups)
]

abbrev pub one : AmountInput
one = printed (text "1")

unfoldable pub amount_of : Option AmountInput → Result AmountInput
unfolding positive_amount
amount_of none = ok one
amount_of (some amount) = do fail_if (not (positive_amount amount)) bad_amount; ok amount

unfoldable pub normalize_stack : Stack → Result Stack
unfolding names_an_asset amount_of
normalize_stack stack = do
  fail_if (not (names_an_asset stack.asset)) bad_asset
  amount ← amount_of stack.amount
  ok (record { asset = stack.asset; amount = some amount })

-- An absent list is an empty one.
unfoldable pub stacks : List Stack → Result (List Stack)
unfolding normalize_stack
stacks [] = ok []
stacks (stack ∷ input) = do first ← normalize_stack stack; rest ← stacks input; ok (first ∷ rest)

unfoldable pub strategy_for : List Stack → List Stack → Result RecipeStrategy
strategy_for costs grants =
    if eqb (length costs) 0 && eqb (length grants) 0
    then err empty_recipe
    else if eqb (length costs) 0
    then ok grant
    else if eqb (length grants) 0
    then ok sink
    else if eqb (length costs) 1 && eqb (length grants) 1
    then ok exchange
    else err not_one_block

unfoldable pub sink_policy : Option Text → Result (Option SinkPolicy)
sink_policy none = ok none
sink_policy (some s) =
    if s == text "burn"
    then ok (some to_nobody)
    else if s == text "issuer"
    then ok (some to_issuer)
    else err bad_sink

abbrev pub sink_or_burn : Option SinkPolicy → SinkPolicy
sink_or_burn none = to_nobody
sink_or_burn (some policy) = policy

abbrev pub settled_sink : Option SinkPolicy → Result SinkPolicy
settled_sink (some to_nobody) = err bad_sink
settled_sink (some to_issuer) = ok to_issuer
settled_sink none = ok to_issuer

unfoldable pub sink_for : Option Text → List Stack → List Stack → Result SinkPolicy
unfolding sink_policy
sink_for given costs grants = do
  policy ← sink_policy given
  if eqb (length costs) 0 || eqb (length grants) 0
      then ok (sink_or_burn policy)
      else settled_sink policy

abbrev pub name_or : Option Text → Text → Text
name_or none id = id
name_or (some name) id = name

module _ ⦃c : Crypto⦄ where
  abbrev pub asserted : Option Text → Result (Option Text)
  asserted none = ok none
  asserted (some address) = do known ← assert_address address; ok (some known)

  unfoldable pub define_recipe : RecipeSpec → Result Recipe
  unfolding stacks strategy_for sink_for
  define_recipe spec =
      let id = trim spec.id in
      do
        fail_if (eqb (length id) 0) bad_recipe
        requires ← stacks spec.requires
        costs ← stacks spec.costs
        grants ← stacks spec.grants
        strategy ← strategy_for costs grants
        policy ← sink_for spec.sink costs grants
        issuer ← asserted spec.issuer
        ok (record {
          id = id;
          name = name_or spec.name id;
          description = spec.description;
          strategy = strategy;
          requires = requires;
          costs = costs;
          grants = grants;
          sink = policy;
          issuer = issuer;
          expires_in = spec.expires_in;
        })

  unfoldable pub define_recipes : List RecipeSpec → Dict Text Recipe → Result (Dict Text Recipe)
  unfolding define_recipe
  define_recipes [] out = ok out
  define_recipes (spec ∷ specs) out = do
    recipe ← define_recipe spec
    fail_if (contains recipe.id out) duplicate_recipe
    define_recipes specs (insert recipe.id recipe out)

-- What `isRecipe` asks beyond the shape that a recipe has here. Whether the value is frozen is given.
unfoldable pub is_recipe : Bool → Recipe → Bool
unfolding names_an_asset
is_recipe frozen recipe =
    frozen
    && not (eqb (length recipe.id) 0)
    && all (λ (stack : Stack). names_an_asset stack.asset) recipe.requires
    && all (λ (stack : Stack). names_an_asset stack.asset) recipe.costs
    && all (λ (stack : Stack). names_an_asset stack.asset) recipe.grants

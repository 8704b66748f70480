-- ===== src/Economy/Assets.antt =====
-- packages/economy/src/assets.ts: what a recipe's stacks are on the chain. The node is its reads; an
-- amount is the decimal text of which the source keeps the number.
use kei_transaction.Common.Tests.{
  ℕ, ◌+◌, Bool, true, false, not, ◌||◌, Option, none, some, List, [], ◌∷◌, eqb, if◌then◌else◌,
}
use kei_transaction.Common.Eq.{◌==◌, text_eq}
use kei_transaction.Common.Lists.{length}
use kei_transaction.Js.Text.{Text, text, trim, upper}
use kei_transaction.Js.Number.{pos}
use kei_transaction.Core.Errors.{
  Result, ok, err, fail_if, no_issuer, bad_issuer, bad_asset, bad_amount, no_such_asset, ◌>>=◌,
  ◌>>◌,
}
use kei_transaction.Core.Crypto.{Crypto}
use kei_transaction.Core.Hex.{is_hex}
use kei_transaction.Core.Address.{assert_address}
use kei_transaction.Core.Amount.{kei_decimals}
use kei_transaction.Core.Amount.Raw.{AmountInput, to_raw, format_raw}
use kei_transaction.Core.Blocks.{kei_asset, TransferPolicy, anyone}
use kei_transaction.Economy.Recipe.{AssetRef, named, fields, Stack, one}

-- What `assetInfo` and `assetBySymbol` answer, in raw units.
pub record AssetFacts : Type 0 where
  pub id : Text
  pub issuer : Text
  pub name : Text
  pub symbol : Text
  pub decimals : ℕ
  pub transfer : TransferPolicy
  pub max_supply : Option ℕ
  pub circulating : ℕ

pub data OfferState : Type 0 where
  open_offer accepted_offer cancelled_offer : OfferState

pub record OfferFacts : Type 0 where
  pub hash : Text
  pub from : Text
  pub asset : Text
  pub amount : ℕ
  pub want_asset : Text
  pub want_amount : ℕ
  pub counterparty : Option Text
  pub state : OfferState

-- The reads of a node: `account_info` is the balance of an account, and `account_swaps` the open offers
-- of one.
pub record Node : Type 0 where
  pub asset_info : Text → Option AssetFacts
  pub asset_by_symbol : Text → Text → Option AssetFacts
  pub account_info : Text → Option ℕ
  pub holder_balance : Text → Text → ℕ
  pub account_swaps : Text → List OfferFacts
  pub swap_offer : Text → Option OfferFacts

pub record ResolvedStack : Type 0 where
  pub asset : Text
  pub symbol : Text
  pub name : Text
  pub decimals : ℕ
  pub issuer : Option Text
  pub transfer_policy : TransferPolicy
  pub max_supply_raw : Option ℕ
  pub circulating_raw : ℕ
  pub amount : Text
  pub raw : ℕ

pub data RefTarget : Type 0 where
  kei : RefTarget
  by_id : Text → RefTarget
  by_symbol : Text → Text → RefTarget

abbrev pub kei_symbol : Text
kei_symbol = text "KEI"

-- `x ?? y`
abbrev pub or_else : Option Text → Option Text → Option Text
or_else none y = y
or_else (some x) y = some x

abbrev pub symbol_or_empty : Option Text → Text
symbol_or_empty none = []
symbol_or_empty (some s) = s

-- The facts of a stack, with no amount yet.
pub record Facts : Type 0 where
  pub asset : Text
  pub symbol : Text
  pub name : Text
  pub decimals : ℕ
  pub issuer : Option Text
  pub transfer_policy : TransferPolicy
  pub max_supply_raw : Option ℕ
  pub circulating_raw : ℕ

abbrev pub kei_facts : Facts
kei_facts = record {
  asset = kei_asset;
  symbol = kei_symbol;
  name = text "Kei";
  decimals = kei_decimals;
  issuer = none;
  transfer_policy = anyone;
  max_supply_raw = none;
  circulating_raw = 0;
}

abbrev pub facts_of : AssetFacts → Facts
facts_of info = record {
  asset = info.id;
  symbol = info.symbol;
  name = info.name;
  decimals = info.decimals;
  issuer = some info.issuer;
  transfer_policy = info.transfer;
  max_supply_raw = info.max_supply;
  circulating_raw = info.circulating;
}

abbrev pub amount_or_one : Option AmountInput → AmountInput
amount_or_one none = one
amount_or_one (some amount) = amount

-- A failure is the code that it carries; `toRaw` keeps its own.
unfoldable pub with_amount : Facts → Option AmountInput → Result ResolvedStack
with_amount facts amount = do
  raw ← to_raw (amount_or_one amount) facts.decimals
  fail_if (eqb raw 0) bad_amount
  ok (record {
    asset = facts.asset;
    symbol = facts.symbol;
    name = facts.name;
    decimals = facts.decimals;
    issuer = facts.issuer;
    transfer_policy = facts.transfer_policy;
    max_supply_raw = facts.max_supply_raw;
    circulating_raw = facts.circulating_raw;
    amount = format_raw (pos raw) facts.decimals;
    raw = raw;
  })

module _ ⦃c : Crypto⦄ where
  -- Whatever `assertAddress` throws becomes 'bad-issuer'.
  unfoldable pub symbol_target : Text → Option Text → Result RefTarget
  symbol_target symbol none = err no_issuer
  symbol_target symbol (some issuer) = elim (assert_address issuer) [
    | err _ ↦ err bad_issuer
    | ok address ↦ ok (by_symbol symbol address)
  ]

  -- An object's `id` that is there and not empty.
  unfoldable pub id_target : Text → Result RefTarget
  id_target given =
      let id = trim given in
      if upper id == kei_asset
      then ok kei
      else (do fail_if (not (is_hex id (some 32))) bad_asset; ok (by_id (upper id)))

  unfoldable pub describe_ref : AssetRef → Option Text → Result RefTarget
  unfolding symbol_target id_target
  describe_ref (named given) fallback =
      let s = trim given in
      if upper s == kei_symbol || upper s == kei_asset
      then ok kei
      else if is_hex s (some 32)
      then ok (by_id (upper s))
      else symbol_target s fallback
  describe_ref (fields none symbol issuer) fallback =
      symbol_target (symbol_or_empty symbol) (or_else issuer fallback)
  describe_ref (fields (some id) symbol issuer) fallback =
      if eqb (length id) 0
      then symbol_target (symbol_or_empty symbol) (or_else issuer fallback)
      else id_target id

  abbrev is_no_issuer : Result RefTarget → Bool
  is_no_issuer (err no_issuer) = true
  is_no_issuer _ = false

  unfoldable pub needs_an_issuer : AssetRef → Bool
  unfolding describe_ref
  needs_an_issuer ref = is_no_issuer (describe_ref ref none)

  abbrev pub found_info : Option AssetFacts → Option AmountInput → Result ResolvedStack
  found_info none amount = err no_such_asset
  found_info (some info) amount = with_amount (facts_of info) amount

  abbrev pub resolve_target : Node → RefTarget → Option AmountInput → Result ResolvedStack
  resolve_target node kei amount = with_amount kei_facts amount
  resolve_target node (by_id id) amount = found_info (node.asset_info id) amount
  resolve_target node (by_symbol symbol issuer) amount =
      found_info (node.asset_by_symbol issuer symbol) amount

  unfoldable pub resolve_stack : Node → Stack → Option Text → Result ResolvedStack
  unfolding describe_ref with_amount
  resolve_stack node stack fallback = do
    target ← describe_ref stack.asset fallback
    resolve_target node target stack.amount

abbrev pub balance_or_zero : Option ℕ → ℕ
balance_or_zero none = 0
balance_or_zero (some n) = n

unfoldable pub spendable_raw : Node → ResolvedStack → Text → ℕ
spendable_raw node stack holder =
    if stack.asset == kei_asset
    then balance_or_zero (node.account_info holder)
    else node.holder_balance stack.asset holder

unfoldable pub sum_locked : Text → List OfferFacts → ℕ
sum_locked asset [] = 0
sum_locked asset (offer ∷ offers) =
    (if offer.asset == asset then offer.amount else 0) + sum_locked asset offers

unfoldable pub locked_raw : Node → Text → Text → ℕ
unfolding sum_locked
locked_raw node asset holder = sum_locked asset (node.account_swaps holder)

unfoldable pub format : ℕ → ResolvedStack → Text
format raw stack = format_raw (pos raw) stack.decimals

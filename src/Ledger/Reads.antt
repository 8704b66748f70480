-- ===== src/Ledger/Reads.antt =====
-- packages/core/src/mock/ledger.ts: the reads, with the shapes that they return (node.ts). A raw amount
-- leaves the ledger as a decimal text.
pub mod Weights
use mathlib.Core.List.{reverse}
use kei_transaction.Common.Tests.{
  ℕ, suc, ◌+◌, Bool, true, false, ◌||◌, Option, none, some, List, [], ◌∷◌, map, ltb, leb,
  if◌then◌else◌,
}
use kei_transaction.Common.Eq.{◌==◌, text_eq, pair_eq}
use kei_transaction.Common.Lists.{length, take}
use kei_transaction.Dict.{Dict, lookup, insert, mem}
use kei_transaction.Js.Text.{Text, upper}
use kei_transaction.Js.Number.{Number, decimal_text}
use kei_transaction.Core.Errors.{Result, ok, ◌>>=◌}
use kei_transaction.Core.Blocks.{Block, TransferPolicy, SwapPolicy, AssetKind}
use kei_transaction.Core.Crypto.{Crypto}
use kei_transaction.Core.Address.{null_representative, public_key_from_address}
use kei_transaction.Core.Merkle.{derive_asset_id}
use kei_transaction.Ledger.State.{
  Ledger, LedgerAccount, AssetRecord, CommitRecord, StoredReceivable, LockRecord, SwapState,
  pending, accepted, cancelled,
}
use kei_transaction.Ledger.Guards.{or_zero, or_empty}

pub record AccountInfo : Type 0 where
  pub address : Text
  pub frontier : Text
  pub height : ℕ
  pub balance : Text
  pub representative : Text
  pub receivable_count : ℕ
  pub issued_count : ℕ

pub record Receivable : Type 0 where
  pub hash : Text
  pub from : Text
  pub asset : Text
  pub amount : Text
  pub memo : Option Text

pub record AssetInfo : Type 0 where
  pub id : Text
  pub issuer : Text
  pub name : Text
  pub symbol : Text
  pub decimals : Number
  pub max_supply : Option Text
  pub transfer : TransferPolicy
  pub swap : SwapPolicy
  pub description : Option Text
  pub image : Option Text
  pub kind : Option AssetKind
  pub circulating : Text

pub record CommitInfo : Type 0 where
  pub root : Text
  pub issuer : Text
  pub asset : Text
  pub count : Number
  pub total : Text
  pub closed : Bool

pub record SwapOffer : Type 0 where
  pub hash : Text
  pub from : Text
  pub asset : Text
  pub amount : Text
  pub want_asset : Text
  pub want_amount : Text
  pub counterparty : Option Text
  pub expires_at : Option Number
  pub state : SwapState
  pub settled_by : Option Text
  pub accepted_by : Option Text
  pub height : ℕ
  pub seen_at : ℕ
  pub settled_at : Option ℕ

-- `x ? f(x) : null`
abbrev pub when_some {ℓ κ} : {A : Type ℓ} {B : Type κ} → (A → B) → Option A → Option B
when_some f none = none
when_some f (some a) = some (f a)

-- What a loop collects of the entries that it does not skip.
abbrev pub collect {ℓ κ} : {A : Type ℓ} {B : Type κ} → (A → Option B) → List A → List B
collect f [] = []
collect f (a ∷ rest) = elim (f a) [ none ↦ collect f rest | some b ↦ b ∷ collect f rest ]

-- `limit !== undefined && out.length >= limit`
abbrev pub reached : Option ℕ → ℕ → Bool
reached none n = false
reached (some limit) n = leb limit n

-- A loop that stops at the limit after every entry, with `n` entries collected.
unfoldable pub collect_until {ℓ κ} :
    {A : Type ℓ} {B : Type κ} → (A → Option B) → Option ℕ → ℕ → List A → List B
collect_until f limit n [] = []
collect_until f limit n (a ∷ rest) =
    let without = collect_until f limit n rest in
    let more = collect_until f limit (suc n) rest in
    elim (f a) [
      | none ↦ if reached limit n then [] else without
      | some b ↦ b ∷ (if reached limit (suc n) then [] else more)
    ]

-- A loop whose `continue` skips the test of the limit.
unfoldable pub collect_upto {ℓ κ} :
    {A : Type ℓ} {B : Type κ} → (A → Option B) → Option ℕ → ℕ → List A → List B
collect_upto f limit n [] = []
collect_upto f limit n (a ∷ rest) =
    let without = collect_upto f limit n rest in
    let more = collect_upto f limit (suc n) rest in
    elim (f a) [ none ↦ without | some b ↦ b ∷ (if reached limit (suc n) then [] else more) ]

-- `balance !== undefined && balance > 0n`
abbrev positive : Text → Option ℕ → Option (Text × Text)
positive name none = none
positive name (some n) = if ltb 0 n then some (name, decimal_text n) else none

unfoldable pub same_state : SwapState → SwapState → Bool
same_state pending pending = true
same_state accepted accepted = true
same_state cancelled cancelled = true
same_state _ _ = false

abbrev offer_from : LockRecord → SwapOffer
offer_from lock = record {
  hash = lock.offer;
  from = lock.owner;
  asset = lock.asset;
  amount = decimal_text lock.amount;
  want_asset = lock.want_asset;
  want_amount = decimal_text lock.want_amount;
  counterparty = lock.counterparty;
  expires_at = lock.expires_at;
  state = lock.state;
  settled_by = lock.settled_by;
  accepted_by = lock.accepted_by;
  height = lock.height;
  seen_at = lock.seen_at;
  settled_at = lock.settled_at;
}

abbrev receivable_of : StoredReceivable → Receivable
receivable_of entry = record {
  hash = entry.hash;
  from = entry.from;
  asset = entry.asset;
  amount = decimal_text entry.amount;
  memo = entry.memo;
}

abbrev asset_info_of : AssetRecord → AssetInfo
asset_info_of a = record {
  id = a.id;
  issuer = a.issuer;
  name = a.name;
  symbol = a.symbol;
  decimals = a.decimals;
  max_supply = when_some decimal_text a.max_supply;
  transfer = a.transfer;
  swap = a.swap;
  description = a.description;
  image = a.image;
  kind = a.kind;
  circulating = decimal_text a.circulating;
}

abbrev commit_info_of : CommitRecord → CommitInfo
commit_info_of p = record {
  root = p.root;
  issuer = p.issuer;
  asset = p.asset;
  count = p.count;
  total = decimal_text p.total;
  closed = p.closed;
}

module _ (s : Ledger) where
  unfoldable pub is_reserve : Text → Bool
  is_reserve address = mem address s.reserve_accounts

  unfoldable pub account_info : Text → Option AccountInfo
  account_info address =
      when_some
        (λ (account : LedgerAccount). record {
          address = account.address;
          frontier = account.frontier;
          height = account.height;
          balance = decimal_text account.balance;
          representative = account.representative;
          receivable_count = length (or_empty (lookup address s.receivables_by_account));
          issued_count = or_zero (lookup address s.issued_by_account);
        })
        (lookup address s.accounts)

  -- Newest first.
  unfoldable pub account_history : Text → Option ℕ → List Block
  account_history address limit =
      let ordered = reverse (or_empty (lookup address s.chains)) in
      elim limit [ none ↦ ordered | some n ↦ take n ordered ]

  unfoldable pub block_info : Text → Option Block
  block_info hash = lookup (upper hash) s.blocks

  unfoldable pub receivables_for : Text → List Receivable
  receivables_for address =
      collect (λ hash. when_some receivable_of (lookup hash s.receivables))
        (or_empty (lookup address s.receivables_by_account))

  unfoldable pub asset_info : Text → Option AssetInfo
  asset_info asset = when_some asset_info_of (lookup (upper asset) s.assets)

  unfoldable pub asset_by_symbol : ⦃c : Crypto⦄ → Text → Text → Result (Option AssetInfo)
  asset_by_symbol issuer symbol = do
    key ← public_key_from_address issuer
    id ← derive_asset_id key symbol
    ok (asset_info id)

  -- An entry is an asset and its balance.
  unfoldable pub holdings_of : Text → List (Text × Text)
  holdings_of address =
      collect (λ asset. positive asset (lookup (address, asset) s.holdings))
        (or_empty (lookup address s.holdings_by_account))

  unfoldable pub holder_balance : Text → Text → ℕ
  holder_balance asset address = or_zero (lookup (upper asset, address) s.holders)

  -- An entry is an account and its balance.
  unfoldable pub holders_of : Text → Option ℕ → List (Text × Text)
  holders_of asset limit =
      collect_until (λ account. positive account (lookup (upper asset, account) s.holders)) limit 0
        (or_empty (lookup (upper asset) s.holders_by_asset))

  unfoldable pub commit_info : Text → Option CommitInfo
  commit_info root = when_some commit_info_of (lookup (upper root) s.commits)

  unfoldable pub has_claimed : Text → Text → Bool
  has_claimed address root = mem (address, upper root) s.claimed

  unfoldable pub swap_offer : Text → Option SwapOffer
  swap_offer hash = when_some offer_from (lookup (upper hash) s.locks)

  unfoldable pub wanted : Option SwapState → LockRecord → Option SwapOffer
  unfolding same_state
  wanted none lock = some (offer_from lock)
  wanted (some state) lock = if same_state lock.state state then some (offer_from lock) else none

  -- An account's own offers, newest first.
  unfoldable pub swaps_of : Text → Option ℕ → Option SwapState → List SwapOffer
  unfolding wanted
  swaps_of address limit state =
      collect_upto
        (λ hash. elim (lookup hash s.locks) [ none ↦ none | some lock ↦ wanted state lock ]) limit 0
        (reverse (or_empty (lookup address s.swaps_by_account)))

  module _ ⦃c : Crypto⦄ where
    -- One account in the loop of `weights`.
    unfoldable pub weigh : Dict Text LedgerAccount → Dict Text ℕ → Dict Text ℕ
    weigh [] out = out
    weigh ((key, account) ∷ rest) out =
        if mem account.address s.reserve_accounts || account.representative == null_representative
        then weigh rest out
        else weigh rest (
            insert account.representative
              (or_zero (lookup account.representative out) + account.balance) out)

    unfoldable pub weights : Dict Text ℕ
    unfolding weigh
    weights = weigh s.accounts []

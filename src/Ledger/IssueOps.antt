-- ===== src/Ledger/IssueOps.antt =====
-- packages/core/src/mock/ledger.ts: the case 'issue' of `applyAsset`.
pub mod Accepted
use kei_transaction.Common.Tests.{
  ℕ, ◌+◌, ◌-◌, Bool, false, not, ◌||◌, Option, none, some, leb, ltb, eqb, if◌then◌else◌,
}
use kei_transaction.Common.Eq.{◌==◌, text_eq}
use kei_transaction.Common.Lists.{length}
use kei_transaction.Dict.{lookup, insert, contains}
use kei_transaction.Js.Text.{Text, text, trim}
use kei_transaction.Js.Number.{Number, whole, negative, fraction, not_finite}
use kei_transaction.Core.Errors.{Code, Result, ok, fail_if, or_fail, ◌>>=◌, ◌>>◌}
use kei_transaction.Core.Amount.{issuance_burn}
use kei_transaction.Core.Crypto.{Crypto}
use kei_transaction.Core.Address.{public_key_from_address}
use kei_transaction.Core.Merkle.{derive_asset_id}
use kei_transaction.Core.Blocks.{
  IssueOp, TransferPolicy, SwapPolicy, anyone, issuer_only, soulbound, two_way, one_way, off,
  normalize_symbol,
}
use kei_transaction.Ledger.State.{Ledger, AssetRecord, LedgerTransition}
use kei_transaction.Ledger.Guards.{or_zero, parse_raw}

-- The members of `TRANSFER_POLICIES`.
unfoldable pub transfer_policy : Text → Option TransferPolicy
transfer_policy t =
    if t == text "open"
    then some anyone
    else if t == text "issuer-only"
    then some issuer_only
    else if t == text "none"
    then some soulbound
    else none

-- The members of `SWAP_POLICIES`.
unfoldable pub swap_policy : Text → Option SwapPolicy
swap_policy t =
    if t == text "two-way"
    then some two_way
    else if t == text "one-way"
    then some one_way
    else if t == text "off"
    then some off
    else none

-- A whole number from 0 to 18.
unfoldable pub good_decimals : Number → Bool
good_decimals (whole n) = leb n 18
good_decimals (negative n) = false
good_decimals (fraction _) = false
good_decimals not_finite = false

unfoldable pub parse_max_supply : Option Text → Result (Option ℕ)
parse_max_supply none = ok none
parse_max_supply (some value) = do
  cap ← parse_raw value
  fail_if (eqb cap 0) Code.bad_max_supply
  ok (some cap)

-- How many assets the account has issued.
abbrev pub issued : Ledger → Text → ℕ
issued s account = or_zero (lookup account s.issued_by_account)

abbrev pub new_asset :
    Text → IssueOp → Text → Text → TransferPolicy → SwapPolicy → Option ℕ → AssetRecord
new_asset account op symbol id transfer swap max_supply = record {
  id = id;
  issuer = account;
  name = op.name;
  symbol = symbol;
  decimals = op.decimals;
  max_supply = max_supply;
  transfer = transfer;
  swap = swap;
  description = op.metadata.description;
  image = op.metadata.image;
  kind = op.metadata.kind;
  circulating = 0;
}

module _ ⦃c : Crypto⦄ (s : Ledger) (account : Text) (previous new_balance : ℕ) where
  -- The burn of the nth asset, checked before the `switch`.
  unfoldable pub check_issue_burn : Result (Unit {0})
  check_issue_burn =
      let burn = issuance_burn (issued s account) in
      do
        fail_if (ltb previous burn) Code.insufficient_kei
        fail_if (not (eqb new_balance (previous - burn))) Code.bad_issuance_burn

  unfoldable pub record_issue : AssetRecord → LedgerTransition
  record_issue asset t = record t {
    assets = insert asset.id asset t.assets;
    issued_by_account = insert account (issued s account + 1) t.issued_by_account;
  }

  unfoldable pub apply_issue : IssueOp → Result LedgerTransition
  apply_issue op = do
    symbol ← normalize_symbol op.symbol
    public_key ← public_key_from_address account
    id ← derive_asset_id public_key symbol
    fail_if (contains id s.assets) Code.already_issued
    fail_if (eqb (length (trim op.name)) 0 || ltb 64 (length op.name)) Code.bad_name
    fail_if (not (good_decimals op.decimals)) Code.bad_decimals
    transfer ← or_fail (transfer_policy op.transfer) Code.bad_transfer_policy
    swap ← or_fail (swap_policy op.swap) Code.bad_swap_policy
    max_supply ← parse_max_supply op.max_supply
    ok (record_issue (new_asset account op symbol id transfer swap max_supply))

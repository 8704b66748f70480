-- ===== src/Ledger/AssetOps.antt =====
-- packages/core/src/mock/ledger.ts: the cases of `applyAsset` from 'mint' to 'claim'.
pub mod Accepted
use kei_transaction.Common.Tests.{
  ℕ, ◌+◌, ◌-◌, Bool, true, false, not, Option, none, some, eqb, if◌then◌else◌,
}
use kei_transaction.Common.Eq.{◌==◌, text_eq, pair_eq}
use kei_transaction.Dict.{lookup, insert, contains, mem, add}
use kei_transaction.Js.Text.{Text, upper}
use kei_transaction.Js.Number.{Number, whole, negative, fraction, not_finite}
use kei_transaction.Core.Errors.{Code, Result, ok, fail_if, or_fail, ◌>>=◌, ◌>>◌}
use kei_transaction.Core.Hex.{is_hex}
use kei_transaction.Core.Crypto.{Crypto}
use kei_transaction.Core.Address.{public_key_from_address, assert_address}
use kei_transaction.Core.Merkle.{leaf_hash, verify_proof}
use kei_transaction.Core.Blocks.{
  MintOp, BurnOp, TransferOp, AssetReceiveOp, CommitOp, CommitCloseOp, ClaimOp, kei_asset,
}
use kei_transaction.Ledger.State.{
  Ledger, AssetRecord, StoredReceivable, CommitRecord, LedgerTransition, noop_transition,
}
use kei_transaction.Ledger.Guards.{
  parse_raw, require_positive, require_asset, require_headroom, enforce_transfer_policy,
  require_credit, require_debit, require_receivable_any_asset,
}
use kei_transaction.Ledger.Commit.{
  commit_credit, commit_debit, create_receivable, consume_receivable, set_circulating,
}

-- A whole number of at least one.
unfoldable pub good_count : Number → Bool
good_count (whole n) = not (eqb n 0)
good_count (negative n) = false
good_count (fraction _) = false
good_count not_finite = false

abbrev pub delivery : Text → Text → Text → AssetRecord → ℕ → Option Text → StoredReceivable
delivery hash from to asset amount memo = record {
  hash = hash;
  from = from;
  to = to;
  asset = asset.id;
  amount = amount;
  memo = memo;
}

abbrev pub commit_record : Text → CommitOp → AssetRecord → ℕ → CommitRecord
commit_record account op asset total = record {
  root = upper op.root;
  issuer = account;
  asset = asset.id;
  count = op.count;
  total = total;
  closed = false;
}

module _ ⦃c : Crypto⦄ (s : Ledger) (account : Text) where
  unfoldable pub apply_mint : MintOp → Text → Result LedgerTransition
  apply_mint op hash = do
    asset ← require_asset s op.asset
    fail_if (not (asset.issuer == account)) Code.not_issuer
    amount ← require_positive op.amount
    require_headroom asset amount
    to ← assert_address op.to
    ok (λ t.
        create_receivable hash (delivery hash account to asset amount none)
          (set_circulating asset (asset.circulating + amount) t))

  unfoldable pub apply_burn : BurnOp → Result LedgerTransition
  apply_burn op = do
    asset ← require_asset s op.asset
    amount ← require_positive op.amount
    require_debit s account asset amount
    ok (λ t.
        set_circulating asset (asset.circulating - amount) (commit_debit account asset.id amount t))

  unfoldable pub apply_transfer : TransferOp → Text → Result LedgerTransition
  apply_transfer op hash = do
    asset ← require_asset s op.asset
    to ← assert_address op.to
    amount ← require_positive op.amount
    enforce_transfer_policy asset account to
    require_debit s account asset amount
    ok (λ t.
        create_receivable hash (delivery hash account to asset amount op.memo)
          (commit_debit account asset.id amount t))

  unfoldable pub apply_asset_receive : AssetReceiveOp → Result LedgerTransition
  apply_asset_receive op = do
    receivable ← require_receivable_any_asset s op.link account
    fail_if (receivable.asset == kei_asset) Code.wrong_block_type
    asset ← require_asset s receivable.asset
    require_credit s account asset
    ok (λ t. commit_credit account asset.id receivable.amount (consume_receivable receivable t))

  unfoldable pub apply_commit : CommitOp → Result LedgerTransition
  apply_commit op =
      let root = upper op.root in
      do
        asset ← require_asset s op.asset
        fail_if (not (asset.issuer == account)) Code.not_issuer
        fail_if (not (is_hex op.root (some 32))) Code.bad_root
        fail_if (contains root s.commits) Code.duplicate_root
        fail_if (not (good_count op.count)) Code.bad_commit
        total ← parse_raw op.total
        ok (λ t. record t {
          commits = insert root (commit_record account op asset total) t.commits;
        })

  unfoldable pub apply_commit_close : CommitCloseOp → Result LedgerTransition
  apply_commit_close op = do
    published ← or_fail (lookup (upper op.root) s.commits) Code.no_such_root
    fail_if (not (published.issuer == account)) Code.not_issuer
    ok (
        if published.closed then noop_transition else λ t. record t {
          commits = insert published.root (record published { closed = true }) t.commits;
        })

  unfoldable pub apply_claim : ClaimOp → Result LedgerTransition
  apply_claim op =
      let root = upper op.root in
      do
        published ← or_fail (lookup root s.commits) Code.no_such_root
        fail_if published.closed Code.root_closed
        fail_if (mem (account, root) s.claimed) Code.already_claimed
        asset ← require_asset s op.asset
        fail_if (not (published.asset == asset.id)) Code.wrong_asset
        fail_if (not (asset.issuer == published.issuer)) Code.not_issuer
        amount ← require_positive op.amount
        public_key ← public_key_from_address account
        leaf ← leaf_hash public_key asset.id amount
        fail_if (not (verify_proof leaf op.proof root)) Code.bad_proof
        require_headroom asset amount
        require_credit s account asset
        ok (λ t. commit_credit account asset.id amount (
            set_circulating asset (asset.circulating + amount)
              (record t { claimed = add (account, root) t.claimed })))

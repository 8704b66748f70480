-- ===== src/Ledger/AssetOps/Accepted.antt =====
-- What an asset operation of packages/core/src/mock/ledger.ts has passed when it is accepted, and the
-- transition that it then is.
use kei_transaction.Common.Tests.{◌⊎◌, ℕ, ◌+◌, ◌-◌, ◌≡◌, true, false, none, some, arith}
use kei_transaction.Common.Eq.{◌==◌, text_eq, pair_eq}
use kei_transaction.Dict.{lookup, insert, mem, add}
use kei_transaction.Js.Text.{Text, upper}
use kei_transaction.Core.Address.{assert_address}
use kei_transaction.Core.Errors.{ok}
use kei_transaction.Core.Crypto.{Crypto}
use kei_transaction.Core.Blocks.{
  MintOp, BurnOp, TransferOp, AssetReceiveOp, CommitOp, CommitCloseOp, ClaimOp,
}
use kei_transaction.Ledger.State.{
  Ledger, LedgerTransition, AssetRecord, StoredReceivable, CommitRecord, noop_transition,
}
use kei_transaction.Ledger.Guards.{
  require_positive, require_asset, require_debit, require_receivable_any_asset, require_headroom,
}
use kei_transaction.Ledger.Commit.{
  commit_credit, commit_debit, create_receivable, consume_receivable, set_circulating,
}
use kei_transaction.Ledger.AssetOps.{
  commit_record, parse_raw, delivery, apply_mint, apply_burn, apply_transfer, apply_asset_receive,
  apply_commit, apply_commit_close, apply_claim,
}

module _ ⦃c : Crypto⦄ (s : Ledger) (account : Text) (t : LedgerTransition) where
  pub mint-inv :
      (op : MintOp) (hash : Text)
      → apply_mint s account op hash ≡ ok t
      → (a : AssetRecord) × (n : ℕ) × (to : Text) × (assert_address op.to ≡ ok to)
        × (require_asset s op.asset ≡ ok a)
        × (require_positive op.amount ≡ ok n)
        × (require_headroom a n ≡ ok tt)
        × ((a.issuer == account) ≡ true)
        × (t ≡ λ u.
            create_receivable hash
              (delivery hash account to a n none)
              (set_circulating a (a.circulating + n) u))
  unfolding apply_mint
  mint-inv op hash e = ground arith

  pub burn-inv :
      (op : BurnOp)
      → apply_burn s account op ≡ ok t
      → (a : AssetRecord) × (n : ℕ) × (require_asset s op.asset ≡ ok a)
        × (require_positive op.amount ≡ ok n)
        × (require_debit s account a n ≡ ok tt)
        × (t ≡ λ u. set_circulating a (a.circulating - n) (commit_debit account a.id n u))
  unfolding apply_burn
  burn-inv op e = ground arith

  pub transfer-inv :
      (op : TransferOp) (hash : Text)
      → apply_transfer s account op hash ≡ ok t
      → (a : AssetRecord) × (n : ℕ) × (to : Text) × (assert_address op.to ≡ ok to)
        × (require_asset s op.asset ≡ ok a)
        × (require_positive op.amount ≡ ok n)
        × (require_debit s account a n ≡ ok tt)
        × (t ≡ λ u.
            create_receivable hash
              (delivery hash account to a n op.memo)
              (commit_debit account a.id n u))
  unfolding apply_transfer
  transfer-inv op hash e = ground arith

  pub asset_receive-inv :
      (op : AssetReceiveOp)
      → apply_asset_receive s account op ≡ ok t
      → (r : StoredReceivable) × (a : AssetRecord) × (require_receivable_any_asset s op.link account
          ≡ ok r)
        × (require_asset s r.asset ≡ ok a)
        × (t ≡ λ u. commit_credit account a.id r.amount (consume_receivable r u))
  unfolding apply_asset_receive
  asset_receive-inv op e = ground arith

  pub claim-inv :
      (op : ClaimOp)
      → apply_claim s account op ≡ ok t
      → (a : AssetRecord) × (n : ℕ) × (require_asset s op.asset ≡ ok a)
        × (require_positive op.amount ≡ ok n)
        × (require_headroom a n ≡ ok tt)
        × (mem (account, upper op.root) s.claimed ≡ false)
        × (t ≡ λ u. commit_credit account a.id n (
            set_circulating a
              (a.circulating + n)
              (record u { claimed = add (account, upper op.root) u.claimed })))
  unfolding apply_claim
  claim-inv op e = ground arith

  -- A commit and a close write the list of commits alone.
  pub commit-inv :
      (op : CommitOp)
      → apply_commit s account op ≡ ok t
      → (a : AssetRecord) × (total : ℕ) × (require_asset s op.asset ≡ ok a)
        × (parse_raw op.total ≡ ok total)
        × ((a.issuer == account) ≡ true)
        × (lookup (upper op.root) s.commits ≡ none)
        × (t ≡ λ u. record u {
          commits = insert (upper op.root) (commit_record account op a total) u.commits;
        })
  unfolding apply_commit
  commit-inv op e = ground arith

  pub commit_close-inv :
      (op : CommitCloseOp)
      → apply_commit_close s account op ≡ ok t
      → (p : CommitRecord) × (lookup (upper op.root) s.commits ≡ some p)
        × ((p.issuer == account) ≡ true)
        × ((t ≡ noop_transition)
            ⊎ (t ≡ λ u. record u {
              commits = insert p.root (record p { closed = true }) u.commits;
            }))
  unfolding apply_commit_close
  commit_close-inv op e = ground arith

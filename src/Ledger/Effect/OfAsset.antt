-- ===== src/Ledger/Effect/OfAsset.antt =====
-- The effect of the asset operations of packages/core/src/mock/ledger.ts that create, destroy and
-- move units, and of those that only publish.
use kei_transaction.Common.Tests.{ℕ, ◌≡◌, refl, sym, ◌∙◌, true, none, List, inl, inr}
use kei_transaction.Common.Eq.{text_eq, pair_eq}
use kei_transaction.Dict.{Dict, lookup, insert, add}
use kei_transaction.Js.Text.{Text, upper}
use kei_transaction.Core.Errors.{ok}
use kei_transaction.Core.Crypto.{Crypto}
use kei_transaction.Core.Blocks.{
  MintOp, BurnOp, TransferOp, AssetReceiveOp, CommitOp, CommitCloseOp, ClaimOp,
}
use kei_transaction.Ledger.State.{Ledger, LedgerTransition, CommitRecord}
use kei_transaction.Ledger.AssetOps.{
  commit_record, delivery, apply_mint, apply_burn, apply_transfer, apply_asset_receive,
  apply_commit, apply_commit_close, apply_claim,
}
use kei_transaction.Ledger.AssetOps.Accepted.{
  commit_close-inv, commit-inv, mint-inv, burn-inv, transfer-inv, asset_receive-inv, claim-inv,
}
use kei_transaction.Ledger.Supply.{
  circulating_of, held_total, receivable_total, locked_total, burned_total,
}
use kei_transaction.Ledger.Effect.{IsValid, Outcome}
use kei_transaction.Ledger.Effect.Facts.{
  widen, require_asset-found, require_receivable-found, require_debit-le,
}
use kei_transaction.Ledger.Effect.AssetWrites.{
  mint_effect, burn_effect, transfer_effect, receive_effect, claim_effect,
}

module _ {s : Ledger} (v : IsValid s) where
  -- The list of claims bears on no total.
  claimed-IsValid : (d : List (Text × Text)) → IsValid (record s { claimed = d })
  unfolding circulating_of held_total receivable_total locked_total
  claimed-IsValid d = record {
    shape = record {
      asset_fits = v.shape.asset_fits;
      receivable_fits = v.shape.receivable_fits;
      lock_fits = v.shape.lock_fits;
      pending_lock = v.shape.pending_lock;
    };
    balanced = v.balanced;
  }

  commits_effect :
      (hash : Text) (n : ℕ) (d : Dict Text CommitRecord)
      → Outcome s hash n n (record s { commits = d })
  unfolding circulating_of held_total receivable_total locked_total burned_total
  commits_effect hash n d =
      let wide = widen v.shape hash in
      record {
        shape = record {
          asset_fits = wide.asset_fits;
          receivable_fits = wide.receivable_fits;
          lock_fits = wide.lock_fits;
          pending_lock = wide.pending_lock;
        };
        balanced = v.balanced;
        kei = refl;
        chains = record { accounts = refl; blocks = refl; chains = refl };
      }

  nothing_effect : (hash : Text) (n : ℕ) → Outcome s hash n n s
  nothing_effect hash n = record {
    shape = widen v.shape hash;
    balanced = v.balanced;
    kei = refl;
    chains = record { accounts = refl; blocks = refl; chains = refl };
  }

  module _ ⦃c : Crypto⦄ (account hash : Text) (n : ℕ) (t : LedgerTransition) where
    pub mint-effect :
        (op : MintOp)
        → lookup hash s.blocks ≡ none
        → upper hash ≡ hash
        → apply_mint s account op hash ≡ ok t
        → Outcome s hash n n (t s)
    mint-effect op fresh cased e =
        let (a, m, to, _, checked, _, _, _, is) = mint-inv s account t op hash e in
        let (found, not_kei, _, id) = require_asset-found v.shape op.asset a checked in
        rw is (
          mint_effect v hash n a m found not_kei id (delivery hash account to a m none) fresh cased
            refl refl refl)

    pub burn-effect : (op : BurnOp) → apply_burn s account op ≡ ok t → Outcome s hash n n (t s)
    burn-effect op e =
        let (a, m, checked, _, enough, is) = burn-inv s account t op e in
        let (found, not_kei, _, id) = require_asset-found v.shape op.asset a checked in
        rw is (
          burn_effect v hash n a m found not_kei id account (require_debit-le s account a m enough))

    pub transfer-effect :
        (op : TransferOp)
        → lookup hash s.blocks ≡ none
        → upper hash ≡ hash
        → apply_transfer s account op hash ≡ ok t
        → Outcome s hash n n (t s)
    transfer-effect op fresh cased e =
        let (a, m, to, _, checked, _, enough, is) = transfer-inv s account t op hash e in
        let (found, not_kei, _, id) = require_asset-found v.shape op.asset a checked in
        rw is (
          transfer_effect v hash n a m found not_kei id account
            (delivery hash account to a m op.memo) fresh cased
            (require_debit-le s account a m enough) refl refl refl)

    pub asset_receive-effect :
        (op : AssetReceiveOp) → apply_asset_receive s account op ≡ ok t → Outcome s hash n n (t s)
    asset_receive-effect op e =
        let (r, a, there, checked, is) = asset_receive-inv s account t op e in
        let (found, not_kei, named, id) = require_asset-found v.shape r.asset a checked in
        let (at, cased) = require_receivable-found v.shape op.link account r there in
        rw is (
          receive_effect v hash n a r.amount found not_kei id account r at (sym cased ∙ named) refl)

    pub claim-effect : (op : ClaimOp) → apply_claim s account op ≡ ok t → Outcome s hash n n (t s)
    unfolding circulating_of held_total receivable_total locked_total burned_total
    claim-effect op e =
        let (a, m, checked, _, _, _, is) = claim-inv s account t op e in
        let (found, not_kei, _, id) = require_asset-found v.shape op.asset a checked in
        let d = add (account, upper op.root) s.claimed in
        let done = claim_effect (claimed-IsValid d) hash n a m found not_kei id account in
        rw is (record {
          shape = done.shape;
          balanced = done.balanced;
          kei = done.kei;
          chains = record {
            accounts = done.chains.accounts;
            blocks = done.chains.blocks;
            chains = done.chains.chains;
          };
        })

    pub commit-effect :
        (op : CommitOp) → apply_commit s account op ≡ ok t → Outcome s hash n n (t s)
    commit-effect op e =
        let (a, total, _, _, _, _, is) = commit-inv s account t op e in
        rw is (
          commits_effect hash n
            (insert (upper op.root) (commit_record account op a total) s.commits))

    pub commit_close-effect :
        (op : CommitCloseOp) → apply_commit_close s account op ≡ ok t → Outcome s hash n n (t s)
    commit_close-effect op e =
        let (p, _, _, how) = commit_close-inv s account t op e in
        elim how [
          | inl is ↦ rw is (nothing_effect hash n)
          | inr is ↦
              rw is (commits_effect hash n (insert p.root (record p { closed = true }) s.commits))
        ]

-- ===== src/Ledger/Effect/OfSwap.antt =====
-- The effect of an offer, an accept and a cancel in packages/core/src/mock/ledger.ts: a lock takes
-- units out of what can be spent, and an accept or a cancel gives the same units to one account.
use kei_transaction.Common.Tests.{ℕ, ◌+◌, ◌≡◌, refl, Option, none, some, arith, inl, inr}
use kei_transaction.Common.Eq.{◌==◌, text_eq}
use kei_transaction.Dict.{lookup}
use kei_transaction.Js.Text.{Text, upper}
use kei_transaction.Core.Errors.{ok}
use kei_transaction.Core.Crypto.{Crypto}
use kei_transaction.Core.Blocks.{SwapOfferOp, SwapAcceptOp, SwapCancelOp, kei_asset}
use kei_transaction.Ledger.State.{Ledger, LedgerTransition, AssetRecord, LockRecord, pending}
use kei_transaction.Ledger.Commit.{set_lock}
use kei_transaction.Ledger.SwapOps.{
  new_lock, accepted_lock, cancelled_lock, payment_of, offered_of, leg_id, pay_leg, debit_leg,
  credit_leg, add_lock, apply_swap_offer, apply_swap_accept, apply_swap_cancel,
}
use kei_transaction.Ledger.SwapOps.Accepted.{
  offer-inv, accept-inv, cancel-inv, require_open_lock-pending,
}
use kei_transaction.Ledger.Supply.{count_if}
use kei_transaction.Ledger.Supply.Frames
use kei_transaction.Ledger.Shape.Writes.{set_lock-HasShape, add_lock-HasShape}
use kei_transaction.Ledger.Effect.{IsValid, Outcome, KnownWith}
use kei_transaction.Ledger.Effect.OfAccept.{Settles, accept_effect}
use kei_transaction.Ledger.Effect.Facts.{widen, fresh_receivable, fresh_lock, require_lock-found}
use kei_transaction.Ledger.Effect.Legs

module _ {s : Ledger} (v : IsValid s) (account hash : Text) (previous new : ℕ)
    (fresh : lookup hash s.blocks ≡ none) (cased : upper hash ≡ hash) where
  offer_effect :
      (leg : Option AssetRecord) (n : ℕ) (lock : LockRecord)
      → Legs.LegFound s leg
      → pay_leg s account previous new leg n ≡ ok tt
      → lock.offer ≡ hash
      → lock.state ≡ pending
      → lock.asset ≡ leg_id leg
      → lock.amount ≡ n
      → upper lock.want_asset ≡ lock.want_asset
      → Outcome s hash previous new (add_lock hash account lock (debit_leg leg account n s))
  offer_effect leg n lock found paid named open' asset amount want =
      let t = debit_leg leg account n s in
      let free : lookup hash t.receivables ≡ none =
        rw Legs.receivables-debit_leg (fresh_receivable v.shape hash fresh) in
      let free_lock : lookup hash t.locks ≡ none =
        rw Legs.locks-debit_leg (fresh_lock v.shape hash fresh) in
      record {
        shape =
            add_lock-HasShape (Legs.debit_leg-HasShape (widen v.shape hash) leg account n) hash
              account lock named cased (inl refl) (rw asset (Legs.leg-IsUpper s leg found)) want
              free;
        balanced = λ x x_not_kei.
            let paid_leg = Legs.totals-debit_leg s account n leg previous new paid x in
            ground (
              arith,
              v.balanced x x_not_kei,
              paid_leg,
              paid_leg.3 x_not_kei,
              Frames.totals-add_lock lock t x hash account free_lock open',
            );
        kei = ground (
          arith,
          Legs.totals-debit_leg s account n leg previous new paid kei_asset,
          Legs.pay_leg-kei s account n leg previous new found paid,
          Frames.totals-add_lock lock t kei_asset hash account free_lock open',
        );
        chains =
            Frames.KeepsChains-trans (Legs.KeepsChains-debit_leg s account n leg)
              (Frames.KeepsChains-add_lock lock t hash account);
      }

  cancel_effect :
      (leg : Option AssetRecord) (old lock : LockRecord)
      → lookup lock.offer s.locks ≡ some old
      → old.state ≡ pending
      → (lock.state ≡ pending → ⊥)
      → upper lock.offer ≡ lock.offer
      → KnownWith s hash lock.offer
      → upper lock.asset ≡ lock.asset
      → upper lock.want_asset ≡ lock.want_asset
      → leg_id leg ≡ old.asset
      → new ≡ previous + count_if (old.asset == kei_asset) old.amount
      → Outcome s hash previous new (set_lock lock (credit_leg leg account old.amount s))
  cancel_effect leg old lock found was settled key known id want asset moved =
      let t = credit_leg leg account old.amount s in
      let there : lookup lock.offer t.locks ≡ some old = rw Legs.locks-credit_leg found in
      record {
        shape =
            set_lock-HasShape (Legs.credit_leg-HasShape (widen v.shape hash) leg account old.amount)
              lock key known id want settled;
        balanced = λ x x_not_kei.
            let refund = Legs.totals-credit_leg s account old.amount leg x in
            ground (
              arith,
              v.balanced x x_not_kei,
              refund,
              refund.3 x_not_kei,
              Frames.totals-set_lock lock t x old there (ground arith) was,
            );
        kei = ground (
          arith,
          Legs.totals-credit_leg s account old.amount leg kei_asset,
          Frames.totals-set_lock lock t kei_asset old there (ground arith) was,
        );
        chains =
            Frames.KeepsChains-trans (Legs.KeepsChains-credit_leg s account old.amount leg)
              (Frames.KeepsChains-set_lock lock t);
      }

module _ ⦃c : Crypto⦄ {s : Ledger} (v : IsValid s) (now : ℕ) (account hash : Text)
    (previous new : ℕ) (fresh : lookup hash s.blocks ≡ none) (cased : upper hash ≡ hash)
    (t : LedgerTransition) where
  pub offer-effect :
      (op : SwapOfferOp)
      → apply_swap_offer now s account previous new op hash ≡ ok t
      → Outcome s hash previous new (t s)
  offer-effect op e =
      let (offered, wanted, n, m, party, first, second, _, _, _, paid, is) =
        offer-inv now s account previous new hash t op e in
      let found = Legs.swap_asset-found v.shape op.asset offered first in
      let want = Legs.swap_asset-found v.shape op.want_asset wanted second in
      rw is (
        offer_effect v account hash previous new fresh cased offered n
          (new_lock now s account hash op offered wanted n m party) found paid refl refl refl refl
          (Legs.leg-IsUpper s wanted want))

  pub accept-effect :
      (op : SwapAcceptOp)
      → apply_swap_accept now s account previous new op hash ≡ ok t
      → Outcome s hash previous new (t s)
  accept-effect op e =
      let (lock, offered, wanted, held', _, leg, _, open', paid, _, _, _, _, is) =
        accept-inv now s account previous new hash t op e in
      let (found, key, known, id, want) = require_lock-found v.shape op.offer lock held' in
      let (leg_found, leg_asset) = Legs.lock_asset-found v.shape lock.want_asset wanted want leg in
      let settles : Settles s hash wanted lock (accepted_lock now account hash lock)
          (payment_of hash account lock) (offered_of account lock) =
        record {
          found = found;
          was = require_open_lock-pending lock open';
          settled = λ p. cc;
          key = key;
          known = known;
          id = id;
          want = want;
          leg_asset = leg_asset;
          payment_hash = refl;
          payment_asset = refl;
          payment_amount = refl;
          offered_hash = refl;
          offered_asset = refl;
          offered_amount = refl;
          same_asset = refl;
        } in
      rw is (
        accept_effect v account hash previous new fresh cased wanted leg_found lock
          (accepted_lock now account hash lock) (payment_of hash account lock)
          (offered_of account lock) settles paid)

  pub cancel-effect :
      (op : SwapCancelOp)
      → apply_swap_cancel now s account previous new op hash ≡ ok t
      → Outcome s hash previous new (t s)
  cancel-effect op e =
      let (lock, refund, held', checked, _, open', is) =
        cancel-inv now s account previous new hash t op e in
      let (found, key, known, id, want) = require_lock-found v.shape op.offer lock held' in
      let (_, asset, moved) =
        Legs.refund_leg-found v.shape account previous new lock refund id checked in
      rw is (
        cancel_effect v account hash previous new fresh cased refund lock
          (cancelled_lock now hash lock) found (require_open_lock-pending lock open') (λ p. cc) key
          (inr known) id want asset moved)

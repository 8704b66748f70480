-- ===== src/Ledger/Effect/OfAccept.antt =====
-- The effect of an accept in packages/core/src/mock/ledger.ts: the accepter's leg becomes a
-- receivable of the offerer and the locked units one of the accepter.
use kei_transaction.Common.Tests.{ℕ, ◌≡◌, refl, sym, ap, ◌∙◌, Option, none, some, arith, inl, inr}
use kei_transaction.Common.Eq.{text_eq}
use kei_transaction.Dict.{lookup}
use kei_transaction.Dict.Laws.{lookup-insert_ne, lookup-insert_self}
use kei_transaction.Js.Text.{Text, upper}
use kei_transaction.Core.Errors.{ok}
use kei_transaction.Core.Blocks.{kei_asset}
use kei_transaction.Ledger.State.{Ledger, AssetRecord, LockRecord, StoredReceivable, pending}
use kei_transaction.Ledger.Commit.{create_receivable, set_lock}
use kei_transaction.Ledger.SwapOps.{leg_id, pay_leg, debit_leg}
use kei_transaction.Ledger.Supply.Frames
use kei_transaction.Ledger.Shape.{HasShape, HasBlock, IsUpper}
use kei_transaction.Ledger.Shape.Writes.{create-HasShape, set_lock-HasShape}
use kei_transaction.Ledger.Effect.{IsValid, Outcome, KnownWith}
use kei_transaction.Ledger.Effect.Facts.{widen, fresh_receivable, fresh_lock}
use kei_transaction.Ledger.Effect.Legs

-- Settling the lock and writing the two receivables are writes of different indexes.
settle_first :
    (lock : LockRecord) (j k : Text) (p q : StoredReceivable) (s : Ledger)
    → set_lock lock (create_receivable k q (create_receivable j p s))
      ≡ create_receivable k q (create_receivable j p (set_lock lock s))
unfolding set_lock create_receivable
settle_first lock j k p q s = refl

-- What an accepted accept knows of the lock `old`, of what it writes in its place, and of the two
-- receivables.
pub record Settles (s : Ledger) (hash : Text) (leg : Option AssetRecord) (old lock : LockRecord)
    (payment offered : StoredReceivable) : Type 0 where
  pub found : lookup lock.offer s.locks ≡ some old
  pub was : old.state ≡ pending
  pub settled : lock.state ≡ pending → ⊥
  pub key : IsUpper lock.offer
  pub known : HasBlock s lock.offer
  pub id : IsUpper lock.asset
  pub want : IsUpper lock.want_asset
  pub leg_asset : leg_id leg ≡ lock.want_asset
  pub payment_hash : payment.hash ≡ hash
  pub payment_asset : payment.asset ≡ lock.want_asset
  pub payment_amount : payment.amount ≡ old.want_amount
  pub offered_hash : offered.hash ≡ lock.offer
  pub offered_asset : offered.asset ≡ lock.asset
  pub offered_amount : offered.amount ≡ old.amount
  pub same_asset : old.asset ≡ lock.asset

module _ {s : Ledger} (v : IsValid s) (account hash : Text) (previous new : ℕ)
    (fresh : lookup hash s.blocks ≡ none) (cased : upper hash ≡ hash) (leg : Option AssetRecord)
    (leg_found : Legs.LegFound s leg) (old lock : LockRecord) (payment offered : StoredReceivable)
    (k : Settles s hash leg old lock payment offered)
    (paid : pay_leg s account previous new leg old.want_amount ≡ ok tt) where
  abbrev after_debit : Ledger
  after_debit = debit_leg leg account old.want_amount s

  abbrev after_payment : Ledger
  after_payment = create_receivable hash payment after_debit

  abbrev after_both : Ledger
  after_both = create_receivable lock.offer offered after_payment

  other_hash : hash ≡ lock.offer → ⊥
  other_hash same = let known = k.known in let at = ap (λ i. lookup i s.blocks) same in ground arith

  free_payment : lookup hash after_debit.receivables ≡ none
  free_payment = rw Legs.receivables-debit_leg (fresh_receivable v.shape hash fresh)

  free_offered : lookup lock.offer after_payment.receivables ≡ none
  unfolding create_receivable
  free_offered =
      lookup-insert_ne lock.offer hash payment after_debit.receivables other_hash
      ∙ rw Legs.receivables-debit_leg (v.shape.pending_lock lock.offer old k.found k.was)

  still_locked : lookup lock.offer after_both.locks ≡ some old
  unfolding create_receivable
  still_locked = rw Legs.locks-debit_leg k.found

  no_lock_of_payment : lookup hash (set_lock lock after_debit).locks ≡ none
  unfolding set_lock
  no_lock_of_payment =
      lookup-insert_ne hash lock.offer lock after_debit.locks (λ same. other_hash (sym same))
      ∙ rw Legs.locks-debit_leg (fresh_lock v.shape hash fresh)

  settled_lock :
      lookup lock.offer (create_receivable hash payment (set_lock lock after_debit)).locks
      ≡ some lock
  unfolding set_lock create_receivable
  settled_lock = lookup-insert_self lock.offer lock after_debit.locks

  accept-HasShape : HasShape (KnownWith s hash) (set_lock lock after_both)
  accept-HasShape = rw settle_first (
      create-HasShape
        (create-HasShape
          (set_lock-HasShape
            (Legs.debit_leg-HasShape (widen v.shape hash) leg account old.want_amount) lock k.key
            (inr k.known) k.id k.want k.settled)
          hash payment k.payment_hash cased (inl refl) (rw k.payment_asset k.want)
          (λ l e p. cc (no_lock_of_payment, e)))
        lock.offer offered k.offered_hash k.key (inr k.known) (rw k.offered_asset k.id)
        (λ l e p. k.settled (ground (arith, settled_lock))))

  pub accept_effect : Outcome s hash previous new (set_lock lock after_both)
  accept_effect = record {
    shape = accept-HasShape;
    balanced = λ x x_not_kei.
        let leg_moved = Legs.totals-debit_leg s account old.want_amount leg previous new paid x in
        ground (
          arith,
          v.balanced x x_not_kei,
          leg_moved,
          leg_moved.3 x_not_kei,
          Frames.totals-create hash payment after_debit x free_payment,
          Frames.totals-create lock.offer offered after_payment x free_offered,
          Frames.totals-set_lock lock after_both x old still_locked (ground arith) k.was,
          k.leg_asset,
          k.payment_asset,
          k.payment_amount,
          k.offered_asset,
          k.offered_amount,
          k.same_asset,
        );
    kei = ground (
      arith,
      Legs.totals-debit_leg s account old.want_amount leg previous new paid kei_asset,
      Legs.pay_leg-kei s account old.want_amount leg previous new leg_found paid,
      Frames.totals-create hash payment after_debit kei_asset free_payment,
      Frames.totals-create lock.offer offered after_payment kei_asset free_offered,
      Frames.totals-set_lock lock after_both kei_asset old still_locked (ground arith) k.was,
      k.leg_asset,
      k.payment_asset,
      k.payment_amount,
      k.offered_asset,
      k.offered_amount,
      k.same_asset,
    );
    chains =
        Frames.KeepsChains-trans
          (Frames.KeepsChains-trans (Legs.KeepsChains-debit_leg s account old.want_amount leg)
            (Frames.KeepsChains-create hash payment after_debit))
          (Frames.KeepsChains-trans (Frames.KeepsChains-create lock.offer offered after_payment)
            (Frames.KeepsChains-set_lock lock after_both));
  }

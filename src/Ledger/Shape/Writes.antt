-- ===== src/Ledger/Shape/Writes.antt =====
-- Every write of the ledger (packages/core/src/mock/ledger.ts) keeps its shape.
use kei_transaction.Common.Tests.{
  ℕ, ◌≡◌, refl, ap, ◌∙◌, none, some, arith, Bool-cases, inl, inr, eqb, ◌-◌,
}
use kei_transaction.Common.Eq.{text_eq, pair_eq, list_beq_iff}
use kei_transaction.Dict.{lookup}
use kei_transaction.Dict.Laws.{lookup-insert, lookup-insert_ne, lookup-erase-none}
use kei_transaction.Dict.Each.{Each-mono, Each-insert, Each-erase}
use kei_transaction.Js.Text.{Text, upper}
use kei_transaction.Core.Blocks.{kei_asset}
use kei_transaction.Ledger.State.{Ledger, AssetRecord, StoredReceivable, LockRecord, pending}
use kei_transaction.Ledger.Guards.{held}
use kei_transaction.Ledger.Commit.{
  commit_credit, commit_debit, create_receivable, consume_receivable, set_circulating, set_lock,
}
use kei_transaction.Ledger.SwapOps.{add_lock}
use kei_transaction.Ledger.Shape.{IsUpper, HasShape, AssetFits, ReceivableFits, LockFits}

module _ {Known : Text → Type 0} {s : Ledger} (h : HasShape Known s) where
  pub credit-HasShape :
      (account asset : Text) (amount : ℕ) → HasShape Known (commit_credit account asset amount s)
  unfolding commit_credit
  credit-HasShape account asset amount = record {
    asset_fits = h.asset_fits;
    receivable_fits = h.receivable_fits;
    lock_fits = h.lock_fits;
    pending_lock = h.pending_lock;
  }

  pub debit-HasShape :
      (account asset : Text) (amount : ℕ) → HasShape Known (commit_debit account asset amount s)
  unfolding commit_debit
  debit-HasShape account asset amount = elim (Bool-cases (eqb (held s account asset - amount) 0)) [
    | inl all_gone ↦ rw all_gone (record {
      asset_fits = h.asset_fits;
      receivable_fits = h.receivable_fits;
      lock_fits = h.lock_fits;
      pending_lock = h.pending_lock;
    })
    | inr some_left ↦ rw some_left (record {
      asset_fits = h.asset_fits;
      receivable_fits = h.receivable_fits;
      lock_fits = h.lock_fits;
      pending_lock = h.pending_lock;
    })
  ]

  pub create-HasShape :
      (hash : Text) (r : StoredReceivable)
      → r.hash ≡ hash
      → upper hash ≡ hash
      → Known hash
      → IsUpper r.asset
      → ((l : LockRecord) → lookup hash s.locks ≡ some l → l.state ≡ pending → ⊥)
      → HasShape Known (create_receivable hash r s)
  unfolding create_receivable
  create-HasShape hash r named cased known id free = record {
    asset_fits = h.asset_fits;
    receivable_fits =
        Each-insert (ReceivableFits Known) hash r s.receivables (named, cased, known, id)
          h.receivable_fits;
    lock_fits = h.lock_fits;
    pending_lock = λ k l e p.
        lookup-insert_ne k hash r s.receivables
          (λ same. free l (ap (λ i. lookup i s.locks) same ∙ e) p)
        ∙ h.pending_lock k l e p;
  }

  pub consume-HasShape : (r : StoredReceivable) → HasShape Known (consume_receivable r s)
  unfolding consume_receivable
  consume-HasShape r = record {
    asset_fits = h.asset_fits;
    receivable_fits =
        Each-erase (ReceivableFits Known) (upper r.hash) s.receivables h.receivable_fits;
    lock_fits = h.lock_fits;
    pending_lock =
        λ k l e p. lookup-erase-none k (upper r.hash) s.receivables (h.pending_lock k l e p);
  }

  pub set_circulating-HasShape :
      (a : AssetRecord) (n : ℕ)
      → (a.id ≡ kei_asset → ⊥)
      → IsUpper a.id
      → HasShape Known (set_circulating a n s)
  unfolding set_circulating
  set_circulating-HasShape a n not_kei id = record {
    asset_fits =
        Each-insert AssetFits a.id (record a { circulating = n }) s.assets (refl, not_kei, id)
          h.asset_fits;
    receivable_fits = h.receivable_fits;
    lock_fits = h.lock_fits;
    pending_lock = h.pending_lock;
  }

  pub set_lock-HasShape :
      (new : LockRecord)
      → upper new.offer ≡ new.offer
      → Known new.offer
      → IsUpper new.asset
      → IsUpper new.want_asset
      → (new.state ≡ pending → ⊥)
      → HasShape Known (set_lock new s)
  unfolding set_lock
  set_lock-HasShape new cased known id want settled = record {
    asset_fits = h.asset_fits;
    receivable_fits = h.receivable_fits;
    lock_fits =
        Each-insert (LockFits Known) new.offer new s.locks (refl, cased, known, id, want)
          h.lock_fits;
    pending_lock = λ k l e p. ground (
      arith,
      lookup-insert k new.offer new s.locks,
      list_beq_iff new.offer k,
      h.pending_lock k l,
      settled,
    );
  }

  pub add_lock-HasShape :
      (hash account : Text) (new : LockRecord)
      → new.offer ≡ hash
      → upper hash ≡ hash
      → Known hash
      → IsUpper new.asset
      → IsUpper new.want_asset
      → lookup hash s.receivables ≡ none
      → HasShape Known (add_lock hash account new s)
  unfolding add_lock
  add_lock-HasShape hash account new named cased known id want fresh = record {
    asset_fits = h.asset_fits;
    receivable_fits = h.receivable_fits;
    lock_fits =
        Each-insert (LockFits Known) hash new s.locks (named, cased, known, id, want) h.lock_fits;
    pending_lock = λ k l e p.
        ground (arith, lookup-insert k hash new s.locks, list_beq_iff hash k, h.pending_lock k l);
  }

  pub HasShape-mono :
      {Known' : Text → Type 0} → ((k : Text) → Known k → Known' k) → HasShape Known' s
  HasShape-mono {Known'} f = record {
    asset_fits = h.asset_fits;
    receivable_fits =
        Each-mono (ReceivableFits Known) (ReceivableFits Known') s.receivables
          (λ k r p. (p.0, p.1, f k p.2, p.3)) h.receivable_fits;
    lock_fits =
        Each-mono (LockFits Known) (LockFits Known') s.locks
          (λ k r p. (p.0, p.1, f k p.2, p.3, p.4)) h.lock_fits;
    pending_lock = h.pending_lock;
  }

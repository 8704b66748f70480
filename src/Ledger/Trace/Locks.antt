-- ===== src/Ledger/Trace/Locks.antt =====
-- What the writes of packages/core/src/mock/ledger.ts do to its locks: terms are never changed, and a
-- settled lock is never written again.
use kei_transaction.Common.Tests.{◌≡◌, refl, sym, ap, ◌∙◌, none, some, Bool-cases, inl, inr}
use kei_transaction.Common.Eq.{text_eq, ◌==◌, list_beq_iff}
use kei_transaction.Dict.{lookup}
use kei_transaction.Dict.Laws.{lookup-insert, lookup-insert_ne}
use kei_transaction.Js.Text.{Text}
use kei_transaction.Core.Crypto.{Crypto}
use kei_transaction.Ledger.State.{Ledger, LockRecord, pending}
use kei_transaction.Ledger.Commit.{
  commit_credit, commit_debit, create_receivable, consume_receivable, set_circulating, set_lock,
  commit_block,
}
use kei_transaction.Ledger.SwapOps.{add_lock}
use kei_transaction.Ledger.Supply.Frames.{locks-debit}
use kei_transaction.Ledger.Trace.{
  Write, keep, create, consume, debit, credit, circulate, issue, publish, close, claim, offer,
  finish, store, then_, terms_of,
}

-- A lock with the same terms, and the same lock if it was settled.
abbrev pub Continues : LockRecord → LockRecord → Type 0
Continues l m = (terms_of m ≡ terms_of l) × ((l.state ≡ pending → ⊥) → m ≡ l)

module _ (k : Text) (l : LockRecord) where
  abbrev Remains : Ledger → Type 0
  Remains s = (m : LockRecord) × (lookup k s.locks ≡ some m) × Continues l m

  same_locks : (s t : Ledger) → t.locks ≡ s.locks → lookup k s.locks ≡ some l → Remains t
  same_locks s t e found = (l, ap (λ d. lookup k d) e ∙ found, (refl, λ _. refl))

  offer_kept :
      (s : Ledger) (hash account : Text) (new : LockRecord)
      → lookup hash s.locks ≡ none
      → lookup k s.locks ≡ some l
      → Remains (add_lock hash account new s)
  unfolding add_lock
  offer_kept s hash account new free found =
      (l, lookup-insert_ne k hash new s.locks (λ same. cc) ∙ found, (refl, λ _. refl))

  finish_kept :
      (s : Ledger) (old new : LockRecord)
      → lookup old.offer s.locks ≡ some old
      → old.state ≡ pending
      → terms_of new ≡ terms_of old
      → lookup k s.locks ≡ some l
      → Remains (set_lock new s)
  unfolding set_lock
  finish_kept s old new there was terms found =
      let same : new.offer ≡ old.offer = ap (λ p. p.0) terms in
      elim (Bool-cases (new.offer == k)) [
        | inl here ↦
            let key : old.offer ≡ k = sym same ∙ (list_beq_iff new.offer k).0 here in
            let is_l : some old ≡ some l = sym there ∙ ap (λ i. lookup i s.locks) key ∙ found in
            let eq : old ≡ l = cc in
            (
              new,
              rw (lookup-insert, here) refl,
              (
                terms ∙ ap terms_of eq,
                λ settled. elim (settled (ap (λ o. o.state) (sym eq) ∙ was)) [ ],
              ),
            )
        | inr other ↦ (l, rw (lookup-insert, other) found, (refl, λ _. refl))
      ]

module _ ⦃c : Crypto⦄ where
  -- A lock outlives every write, with its terms; a settled lock does not change at all.
  pub Write-Continues :
      {s t : Ledger} (k : Text) (l : LockRecord)
      → Write s t
      → lookup k s.locks ≡ some l
      → (m : LockRecord) × (lookup k t.locks ≡ some m) × Continues l m
  unfolding commit_credit commit_debit create_receivable consume_receivable set_circulating
      commit_block
  Write-Continues k l keep found = (l, found, (refl, λ _. refl))
  Write-Continues k l (create hash r) found = (l, found, (refl, λ _. refl))
  Write-Continues k l (consume r) found = (l, found, (refl, λ _. refl))
  Write-Continues k l (debit {s = s} account a n _) found =
      same_locks k l s (commit_debit account a n s) (locks-debit account a n s) found
  Write-Continues k l (credit account a n) found = (l, found, (refl, λ _. refl))
  Write-Continues k l (circulate a n _ _) found = (l, found, (refl, λ _. refl))
  Write-Continues k l (issue a account count _ _) found = (l, found, (refl, λ _. refl))
  Write-Continues k l (publish p _) found = (l, found, (refl, λ _. refl))
  Write-Continues k l (close j p _) found = (l, found, (refl, λ _. refl))
  Write-Continues k l (claim account root) found = (l, found, (refl, λ _. refl))
  Write-Continues k l (offer {s = s} hash account new free) found =
      offer_kept k l s hash account new free found
  Write-Continues k l (finish {s = s} old new there was _ terms) found =
      finish_kept k l s old new there was terms found
  Write-Continues k l (store b hash new _ _ _) found = (l, found, (refl, λ _. refl))
  Write-Continues k l (then_ first rest) found =
      let (m, at, (terms, same)) = Write-Continues k l first found in
      let (n, then_at, (terms', same')) = Write-Continues k m rest at in
      (
        n,
        then_at,
        (
          terms' ∙ terms,
          λ settled.
              let is_m = same settled in
              same' (λ p. settled (ap (λ o. o.state) (sym is_m) ∙ p)) ∙ is_m,
        ),
      )

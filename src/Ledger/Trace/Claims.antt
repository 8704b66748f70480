-- ===== src/Ledger/Trace/Claims.antt =====
-- What the writes of packages/core/src/mock/ledger.ts do to commits and claims: a claim is never
-- forgotten, and a commit is only ever closed.
use kei_transaction.Common.Tests.{◌≡◌, ◌⊎◌, ap, ◌∙◌, true, List, [], ◌∷◌, ◌++◌, arith, inl, inr}
use kei_transaction.Common.Eq.{Eq, text_eq, pair_eq, ==_refl}
use kei_transaction.Dict.{mem, add}
use kei_transaction.Dict.Each.{Each}
use kei_transaction.Js.Text.{Text}
use kei_transaction.Core.Crypto.{Crypto}
use kei_transaction.Ledger.State.{Ledger, CommitRecord}
use kei_transaction.Ledger.Commit.{
  commit_credit, commit_debit, create_receivable, consume_receivable, set_circulating, set_lock,
  commit_block,
}
use kei_transaction.Ledger.SwapOps.{add_lock}
use kei_transaction.Ledger.Trace.{
  Write, keep, create, consume, debit, credit, circulate, issue, publish, close, claim, offer,
  finish, store, then_,
}

module _ {ℓ} {K : Type ℓ} ⦃e : Eq K⦄ where
  mem-append : (k x : K) (xs : List K) → mem k xs ≡ true → mem k (xs ++ x ∷ []) ≡ true
  unfolding mem
  mem-append k x [] h = cc
  mem-append k x (y ∷ ys) h = ground (arith, mem-append k x ys)

  mem-append_last : (k : K) (xs : List K) → mem k (xs ++ k ∷ []) ≡ true
  unfolding mem
  mem-append_last k [] = ground (arith, ==_refl k)
  mem-append_last k (y ∷ ys) = ground (arith, mem-append_last k ys)

  pub mem-add : (k x : K) (xs : List K) → mem k xs ≡ true → mem k (add x xs) ≡ true
  unfolding add
  mem-add k x xs h = ground (arith, mem-append k x xs)

  pub mem-add_self : (k : K) (xs : List K) → mem k (add k xs) ≡ true
  unfolding add
  mem-add_self k xs = ground (arith, mem-append_last k xs)

abbrev pub NamesRoots : Ledger → Type 0
NamesRoots s = Each (λ (k : Text) (p : CommitRecord). p.root ≡ k) s.commits

-- The same commit, perhaps closed since.
abbrev pub Closes : CommitRecord → CommitRecord → Type 0
Closes p q = (q ≡ p) ⊎ (q ≡ record p { closed = true })

Closes-trans : (p q r : CommitRecord) → Closes p q → Closes q r → Closes p r
Closes-trans p q r (inl a) (inl b) = inl (b ∙ a)
Closes-trans p q r (inl a) (inr b) =
    inr (b ∙ ap (λ (x : CommitRecord). record x { closed = true }) a)
Closes-trans p q r (inr a) (inl b) = inr (b ∙ a)
Closes-trans p q r (inr a) (inr b) =
    inr (b ∙ ap (λ (x : CommitRecord). record x { closed = true }) a)

module _ ⦃c : Crypto⦄ where
  pub Write-claimed :
      {s t : Ledger} (p : Text × Text) → Write s t → mem p s.claimed ≡ true → mem p t.claimed ≡ true
  unfolding commit_credit commit_debit create_receivable consume_receivable set_circulating set_lock
      add_lock commit_block
  Write-claimed p keep h = h
  Write-claimed p (create hash r) h = h
  Write-claimed p (consume r) h = h
  Write-claimed p (debit account x n _) h = ground arith
  Write-claimed p (credit account x n) h = h
  Write-claimed p (circulate a n _ _) h = h
  Write-claimed p (issue a account count _ _) h = h
  Write-claimed p (publish q _) h = h
  Write-claimed p (close j q _) h = h
  Write-claimed p (claim {s = s} account root) h = mem-add p (account, root) s.claimed h
  Write-claimed p (offer hash account new _) h = h
  Write-claimed p (finish old new _ _ _ _) h = h
  Write-claimed p (store b hash new _ _ _) h = h
  Write-claimed p (then_ first rest) h = Write-claimed p rest (Write-claimed p first h)

-- ===== src/Dict/Each.antt =====
-- A statement about every entry of a map, under each write.
use kei_transaction.Common.Tests.{◌≡◌, true, some, [], ◌∷◌, arith, Bool-cases, inl, inr, sym}
use mathlib.Core.Path.{subst}
use kei_transaction.Common.Eq.{Eq, ◌==◌}
use kei_transaction.Dict.{Dict, lookup, insert, erase}

module _ {ℓ κ} {K : Type ℓ} {V : Type κ} where
  abbrev pub Each : (K → V → Type 0) → Dict K V → Type 0
  Each P [] = Unit {0}
  Each P ((k, v) ∷ d) = P k v × Each P d

  pub Each-mono :
      (P Q : K → V → Type 0) (d : Dict K V)
      → ((k : K) (v : V) → P k v → Q k v)
      → Each P d
      → Each Q d
  Each-mono P Q [] f h = tt
  Each-mono P Q ((k, v) ∷ d) f h = (f k v h.0, Each-mono P Q d f h.1)

module _ {ℓ κ} {K : Type ℓ} {V : Type κ} ⦃e : Eq K⦄ where
  lookup_head :
      (k j : K) (v w : V) (d : Dict K V) → (j == k) ≡ true → lookup k ((j, w) ∷ d) ≡ some v → w ≡ v
  unfolding lookup
  lookup_head k j v w d same eq = ground arith

  pub Each-lookup :
      (P : K → V → Type 0) (k : K) (v : V) (d : Dict K V) → Each P d → lookup k d ≡ some v → P k v
  unfolding lookup
  Each-lookup P k v [] h eq = cc
  Each-lookup P k v ((j, w) ∷ d) h eq = elim (Bool-cases (j == k)) [
    | inl same ↦
        subst (λ i. P i v) ((e.beq_iff j k).0 same)
          (subst (P j) (lookup_head k j v w d same eq) h.0)
    | inr other ↦ Each-lookup P k v d h.1 (rw other at eq)
  ]

  pub Each-insert :
      (P : K → V → Type 0) (k : K) (v : V) (d : Dict K V) → P k v → Each P d → Each P (insert k v d)
  unfolding insert
  Each-insert P k v [] p h = (p, tt)
  Each-insert P k v ((j, w) ∷ d) p h = elim (Bool-cases (j == k)) [
    | inl same ↦ rw same (subst (λ i. P i v) (sym ((e.beq_iff j k).0 same)) p, h.1)
    | inr other ↦ rw other (h.0, Each-insert P k v d p h.1)
  ]

  pub Each-erase : (P : K → V → Type 0) (k : K) (d : Dict K V) → Each P d → Each P (erase k d)
  unfolding erase
  Each-erase P k [] h = tt
  Each-erase P k ((j, w) ∷ d) h = elim (Bool-cases (j == k)) [
    | inl same ↦ rw same h.1
    | inr other ↦ rw other (h.0, Each-erase P k d h.1)
  ]

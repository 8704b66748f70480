-- ===== src/Dict.antt =====
-- A JavaScript `Map`, as the list of its entries in insertion order, and a `Set` as the list of
-- its members. Writing a key that is present keeps its place, as in the language.
pub mod Laws
pub mod Sum
pub mod Each
use kei_transaction.Common.Tests.{
  ℕ, suc, Bool, true, false, ◌||◌, Option, none, some, List, [], ◌∷◌, ◌++◌, if◌then◌else◌,
}
use kei_transaction.Common.Eq.{Eq, ◌==◌}

abbrev pub Dict {ℓ κ} : Type ℓ → Type κ → Type (ℓ ⊔ κ)
Dict K V = List (K × V)

module _ {ℓ κ} {K : Type ℓ} {V : Type κ} ⦃e : Eq K⦄ where
  -- `map.get(k)`
  unfoldable pub lookup : K → Dict K V → Option V
  lookup k [] = none
  lookup k ((j, v) ∷ d) = if j == k then some v else lookup k d

  -- `map.has(k)`
  abbrev pub contains : K → Dict K V → Bool
  contains k d = elim (lookup k d) [ none ↦ false | some _ ↦ true ]

  -- `map.set(k, v)`
  unfoldable pub insert : K → V → Dict K V → Dict K V
  insert k v [] = (k, v) ∷ []
  insert k v ((j, w) ∷ d) = if j == k then (j, v) ∷ d else (j, w) ∷ insert k v d

  -- `map.delete(k)`
  unfoldable pub erase : K → Dict K V → Dict K V
  erase k [] = []
  erase k ((j, w) ∷ d) = if j == k then d else (j, w) ∷ erase k d

module _ {ℓ} {K : Type ℓ} ⦃e : Eq K⦄ where
  -- `set.has(k)`
  unfoldable pub mem : K → List K → Bool
  mem k [] = false
  mem k (x ∷ xs) = x == k || mem k xs

  -- `set.add(k)`
  unfoldable pub add : K → List K → List K
  unfolding mem
  add k xs = if mem k xs then xs else xs ++ k ∷ []

  -- `set.delete(k)`
  unfoldable pub remove : K → List K → List K
  remove k [] = []
  remove k (x ∷ xs) = if x == k then xs else x ∷ remove k xs

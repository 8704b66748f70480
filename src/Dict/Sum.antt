-- ===== src/Dict/Sum.antt =====
-- Sums over the values of a map, under each write.
use kei_transaction.Common.Tests.{ℕ, ◌+◌, ◌≡◌, Option, none, some, [], ◌∷◌, arith}
use kei_transaction.Common.Eq.{Eq}
use kei_transaction.Dict.{Dict, lookup, insert, erase}

module _ {ℓ κ} {K : Type ℓ} {V : Type κ} where
  -- The sum of `f` over the entries.
  unfoldable pub sum_of : (K → V → ℕ) → Dict K V → ℕ
  sum_of f [] = 0
  sum_of f ((k, v) ∷ d) = f k v + sum_of f d

  -- The share of one key: 0 where it is absent.
  abbrev pub share : (K → V → ℕ) → K → Option V → ℕ
  share f k none = 0
  share f k (some v) = f k v

module _ {ℓ κ} {K : Type ℓ} {V : Type κ} ⦃e : Eq K⦄ where
  pub sum-insert :
      (f : K → V → ℕ) (k : K) (v : V) (d : Dict K V)
      → sum_of f (insert k v d) + share f k (lookup k d) ≡ sum_of f d + f k v
  unfolding sum_of lookup insert
  sum-insert f k v [] = omega arith
  sum-insert f k v ((j, w) ∷ d) = ground (arith, e.beq_iff j k, sum-insert f k v d)

  pub sum-erase :
      (f : K → V → ℕ) (k : K) (d : Dict K V)
      → sum_of f (erase k d) + share f k (lookup k d) ≡ sum_of f d
  unfolding sum_of lookup erase
  sum-erase f k [] = omega arith
  sum-erase f k ((j, w) ∷ d) = ground (arith, e.beq_iff j k, sum-erase f k d)

-- ===== src/Dict/Laws.antt =====
-- What a map holds after a write and after a deletion.
use kei_transaction.Common.Tests.{◌≡◌, refl, none, some, [], ◌∷◌, arith, if◌then◌else◌}
use kei_transaction.Common.Eq.{Eq, ◌==◌}
use kei_transaction.Dict.{Dict, lookup, insert, erase}

module _ {ℓ κ} {K : Type ℓ} {V : Type κ} ⦃e : Eq K⦄ where
  pub lookup-insert :
      (j k : K) (v : V) (d : Dict K V)
      → lookup j (insert k v d) ≡ (if k == j then some v else lookup j d)
  unfolding lookup insert
  lookup-insert j k v [] = refl
  lookup-insert j k v ((i, w) ∷ d) =
      ground (arith, e.beq_iff i k, e.beq_iff i j, e.beq_iff k j, lookup-insert j k v d)

  pub lookup-insert_self : (k : K) (v : V) (d : Dict K V) → lookup k (insert k v d) ≡ some v
  lookup-insert_self k v d = rw (lookup-insert, (e.beq_iff k k).1 refl)

  pub lookup-insert_ne :
      (j k : K) (v : V) (d : Dict K V) → (k ≡ j → ⊥) → lookup j (insert k v d) ≡ lookup j d
  lookup-insert_ne j k v d h = ground (arith, lookup-insert j k v d, e.beq_iff k j)

  pub lookup-erase_ne : (j k : K) (d : Dict K V) → (k ≡ j → ⊥) → lookup j (erase k d) ≡ lookup j d
  unfolding lookup erase
  lookup-erase_ne j k [] h = refl
  lookup-erase_ne j k ((i, w) ∷ d) h =
      ground (arith, e.beq_iff i k, e.beq_iff i j, lookup-erase_ne j k d h)

  -- A key that is absent stays absent, whatever is deleted.
  pub lookup-erase-none : (j k : K) (d : Dict K V) → lookup j d ≡ none → lookup j (erase k d) ≡ none
  unfolding lookup erase
  lookup-erase-none j k [] h = refl
  lookup-erase-none j k ((i, w) ∷ d) h = ground (arith, lookup-erase-none j k d)

-- ===== src/Claims/Tree/Layers.antt =====
-- The layers that `buildCommit` of packages/claims/src/tree.ts makes, and the path through them:
-- folding an entry with its siblings ends at the root.
use kei_transaction.Common.Tests.{
  ℕ, zero, suc, ◌+◌, ◌-◌, ◌*◌, ◌/◌, ◌%◌, ◌^◌, ◌≤◌, ◌<◌, ◌≡◌, refl, sym, ap, ◌∙◌, true, false, List,
  [], ◌∷◌, arith, eqb, leb, Bool-cases, inl, inr,
}
use kei_transaction.Common.Eq.{text_eq}
use kei_transaction.Common.Lists.{length}
use kei_transaction.Js.Text.{Text}
use kei_transaction.Core.Crypto.{Crypto}
use kei_transaction.Core.Merkle.{combine_hashes, text_le}
use kei_transaction.Claims.Tree.{
  entry_at, entry_or, sibling, path_to, root_of, pair_up, layers_from,
}

text_le_antisymm : (s t : Text) → text_le s t ≡ true → text_le t s ≡ true → s ≡ t
unfolding text_le
text_le_antisymm [] [] h k = refl
text_le_antisymm [] (y ∷ ys) h k = cc
text_le_antisymm (x ∷ xs) [] h k = cc
text_le_antisymm (x ∷ xs) (y ∷ ys) h k = ground (arith, text_le_antisymm xs ys)

text_le_total : (s t : Text) → text_le s t ≡ false → text_le t s ≡ true
unfolding text_le
text_le_total [] t h = cc
text_le_total (x ∷ xs) [] h = refl
text_le_total (x ∷ xs) (y ∷ ys) h = ground (arith, text_le_total xs ys)

module _ ⦃c : Crypto⦄ where
  -- A pair of hashes is put in order before it is hashed.
  pub combine_comm : (s t : Text) → combine_hashes s t ≡ combine_hashes t s
  unfolding combine_hashes
  combine_comm s t = elim (Bool-cases (text_le s t)) [
    | inl le ↦ elim (Bool-cases (text_le t s)) [
      | inl ge ↦ rw (text_le_antisymm s t le ge) refl
      | inr not_ge ↦ rw (le, not_ge) refl
    ]
    | inr not_le ↦ rw (not_le, text_le_total s t not_le) refl
  ]

  -- Folding a leaf with a proof.
  unfoldable pub fold_hashes : Text → List Text → Text
  fold_hashes current [] = current
  fold_hashes current (other ∷ proof) = fold_hashes (combine_hashes current other) proof

entry_at-step :
    (x y : Text) (l : List Text) (n m : ℕ) → n ≡ suc (suc m) → entry_at (x ∷ y ∷ l) n ≡ entry_at l m
unfolding entry_at
entry_at-step x y l n m h = rw h refl

entry_or-step :
    (x y : Text) (l : List Text) (n m i j : ℕ)
    → n ≡ suc (suc m)
    → i ≡ suc (suc j)
    → entry_or (x ∷ y ∷ l) n i ≡ entry_or l m j
unfolding entry_or
entry_or-step x y l n m i j h k =
    ground (arith, entry_at-step x y l n m h, entry_at-step x y l i j k)

sibling_step :
    (x y : Text) (l : List Text) (i : ℕ) → sibling (x ∷ y ∷ l) (suc (suc i)) ≡ sibling l i
unfolding sibling
sibling_step x y l i =
    let same : suc (suc i) % 2 ≡ i % 2 = omega arith in
    elim (Bool-cases (eqb (i % 2) 0)) [
      | inl even ↦
          rw (same, even)
            (entry_or-step x y l (suc (suc i) + 1) (i + 1) (suc (suc i)) i (omega arith) refl)
      | inr odd ↦ rw (same, odd) (entry_at-step x y l (suc (suc i) - 1) (i - 1) (ground arith))
    ]

abbrev pub last_layer : List (List Text) → List Text
last_layer [] = []
last_layer (layer ∷ []) = layer
last_layer (layer ∷ next ∷ layers) = last_layer (next ∷ layers)

module _ ⦃c : Crypto⦄ where
  -- Above an entry stands its hash with its sibling.
  entry_at-pair_up :
      (l : List Text) (i : ℕ)
      → i < length l
      → entry_at (pair_up l) (i / 2) ≡ combine_hashes (entry_at l i) (sibling l i)
  unfolding entry_at pair_up sibling entry_or
  entry_at-pair_up [] i h = absurd (omega arith)
  entry_at-pair_up (x ∷ []) zero h = refl
  entry_at-pair_up (x ∷ []) (suc i) h = absurd (omega arith)
  entry_at-pair_up (x ∷ y ∷ l) zero h = ground arith
  entry_at-pair_up (x ∷ y ∷ l) (suc zero) h = combine_comm x y
  entry_at-pair_up (x ∷ y ∷ l) (suc (suc i)) h =
      let half : suc (suc i) / 2 ≡ suc (i / 2) = omega arith in
      rw (half, sibling_step x y l i) (entry_at-pair_up l i (omega arith))

  pub length-pair_up :
      (l : List Text)
      → (length (pair_up l) * 2 ≤ length l + 1) × (length l ≤ length (pair_up l) * 2)
  unfolding pair_up
  length-pair_up [] = omega arith
  length-pair_up (x ∷ []) = omega arith
  length-pair_up (x ∷ y ∷ l) = omega (arith, length-pair_up l)

  pub layers_from-first :
      (fuel : ℕ) (layer : List Text)
      → (rest : List (List Text)) × layers_from fuel layer ≡ layer ∷ rest
  unfolding layers_from
  layers_from-first zero layer = ([], refl)
  layers_from-first (suc fuel) layer = elim (Bool-cases (leb (length layer) 1)) [
    | inl small ↦ ([], rw small refl)
    | inr large ↦ (layers_from fuel (pair_up layer), rw large refl)
  ]

  pub root_of-more :
      (layer : List Text) (fuel : ℕ) (above : List Text)
      → root_of (layer ∷ layers_from fuel above) ≡ root_of (layers_from fuel above)
  unfolding root_of
  root_of-more layer fuel above = let first = layers_from-first fuel above in rw (first.1) refl

  pub path_to-more :
      (layer : List Text) (fuel : ℕ) (above : List Text) (i : ℕ)
      → path_to (layer ∷ layers_from fuel above) i
        ≡ sibling layer i ∷ path_to (layers_from fuel above) (i / 2)
  unfolding path_to
  path_to-more layer fuel above i = let first = layers_from-first fuel above in rw (first.1) refl

  -- The path of an entry of the lowest layer folds to the root.
  pub fold_hashes-path_to :
      (fuel : ℕ) (layer : List Text) (i : ℕ)
      → i < length layer
      → length layer ≤ suc fuel
      → fold_hashes (entry_at layer i) (path_to (layers_from fuel layer) i)
        ≡ root_of (layers_from fuel layer)
  unfolding layers_from fold_hashes path_to root_of
  fold_hashes-path_to zero layer i within enough = let first : i ≡ 0 = omega arith in rw first refl
  fold_hashes-path_to (suc fuel) layer i within enough = elim (Bool-cases (leb (length layer) 1)) [
    | inl small ↦ let first : i ≡ 0 = ground arith in rw (small, first) refl
    | inr large ↦
        let above : fold_hashes (entry_at (pair_up layer) (i / 2))
              (path_to (layers_from fuel (pair_up layer)) (i / 2))
            ≡ root_of (layers_from fuel (pair_up layer)) =
          fold_hashes-path_to fuel (pair_up layer) (i / 2) (ground (arith, length-pair_up layer))
            (ground (arith, length-pair_up layer)) in
        rw
          (
            large,
            root_of-more layer fuel (pair_up layer),
            path_to-more layer fuel (pair_up layer) i,
          )
          (ap (λ h. fold_hashes h (path_to (layers_from fuel (pair_up layer)) (i / 2)))
              (sym (entry_at-pair_up layer i within))
            ∙ above)
  ]

  -- A tree over at most 2 ^ k leaves gives paths of at most k hashes.
  pub length-path_to :
      (k fuel : ℕ) (layer : List Text) (i : ℕ)
      → length layer ≤ 2 ^ k
      → length (path_to (layers_from fuel layer) i) ≤ k
  unfolding layers_from path_to
  length-path_to k zero layer i h = omega arith
  length-path_to zero (suc fuel) layer i h =
      let small : leb (length layer) 1 ≡ true = ground arith in rw small omega arith
  length-path_to (suc k) (suc fuel) layer i h = elim (Bool-cases (leb (length layer) 1)) [
    | inl small ↦ rw small omega arith
    | inr large ↦
        let half : length (pair_up layer) ≤ 2 ^ k = omega (arith, length-pair_up layer) in
        rw (large, path_to-more layer fuel (pair_up layer) i) omega
          (arith, length-path_to k fuel (pair_up layer) (i / 2) half)
  ]

  -- One round for each entry but one is enough: another changes nothing.
  pub layers_from-enough :
      (fuel : ℕ) (layer : List Text)
      → length layer ≤ suc fuel
      → layers_from (suc fuel) layer ≡ layers_from fuel layer
  unfolding layers_from
  layers_from-enough zero layer h =
      let small : leb (length layer) 1 ≡ true = ground arith in rw small refl
  layers_from-enough (suc fuel) layer h = elim (Bool-cases (leb (length layer) 1)) [
    | inl small ↦ rw small refl
    | inr large ↦
        let above : layers_from (suc fuel) (pair_up layer) ≡ layers_from fuel (pair_up layer) =
          layers_from-enough fuel (pair_up layer) (ground (arith, length-pair_up layer)) in
        rw large (ap (λ rest. layer ∷ rest) above)
  ]

  layers_from-extra :
      (extra fuel : ℕ) (layer : List Text)
      → length layer ≤ suc fuel
      → layers_from (fuel + extra) layer ≡ layers_from fuel layer
  layers_from-extra zero fuel layer h = ap (λ n. layers_from n layer) (omega arith)
  layers_from-extra (suc extra) fuel layer h =
      let next : fuel + suc extra ≡ suc (fuel + extra) = omega arith in
      ap (λ n. layers_from n layer) next
      ∙ layers_from-enough (fuel + extra) layer (omega arith)
      ∙ layers_from-extra extra fuel layer h

  last_layer-more :
      (layer : List Text) (fuel : ℕ) (above : List Text)
      → last_layer (layer ∷ layers_from fuel above) ≡ last_layer (layers_from fuel above)
  last_layer-more layer fuel above = let first = layers_from-first fuel above in rw (first.1) refl

  length-last_layer :
      (fuel : ℕ) (layer : List Text)
      → 0 < length layer
      → length layer ≤ suc fuel
      → length (last_layer (layers_from fuel layer)) ≡ 1
  unfolding layers_from
  length-last_layer zero layer h k = omega arith
  length-last_layer (suc fuel) layer h k = elim (Bool-cases (leb (length layer) 1)) [
    | inl small ↦ rw small (ground arith)
    | inr large ↦
        rw (large, last_layer-more layer fuel (pair_up layer))
          (length-last_layer fuel (pair_up layer) (ground (arith, length-pair_up layer))
            (ground (arith, length-pair_up layer)))
  ]

  -- The loop that adds layers ends by itself: with the rounds that it is given and any more, the layers are the same, and the last of them
  -- has one entry.
  pub layers_from-ends :
      (extra : ℕ) (layer : List Text)
      → 0 < length layer
      → (layers_from (length layer + extra) layer ≡ layers_from (length layer) layer)
        × (length (last_layer (layers_from (length layer) layer)) ≡ 1)
  layers_from-ends extra layer h = (
    layers_from-extra extra (length layer) layer (omega arith),
    length-last_layer (length layer) layer h (omega arith),
  )

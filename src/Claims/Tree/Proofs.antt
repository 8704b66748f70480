-- ===== src/Claims/Tree/Proofs.antt =====
-- What `verifyProof` of packages/core/src/merkle.ts says of the proofs that `buildCommit` of
-- packages/claims/src/tree.ts hands out.
use kei_transaction.Common.Tests.{
  ℕ, zero, suc, ◌/◌, ◌^◌, ◌≤◌, ◌<◌, ◌≡◌, refl, true, some, List, [], ◌∷◌, arith, leb, Bool-cases,
  inl, inr,
}
use kei_transaction.Common.Eq.{list_beq_iff}
use kei_transaction.Common.Lists.{length}
use kei_transaction.Js.Text.{Text}
use kei_transaction.Core.Crypto.{Crypto, DigestBytes}
use kei_transaction.Core.Hex.{is_hex}
use kei_transaction.Core.Merkle.{combine_hashes, fold_proof, verify_proof}
use kei_transaction.Claims.Tree.{entry_at, path_to, root_of, pair_up, layers_from}
use kei_transaction.Claims.Tree.Layers.{
  fold_hashes, fold_hashes-path_to, length-path_to, length-pair_up, root_of-more, path_to-more,
}
use kei_transaction.Claims.Tree.Hexes.{all_hex, is_hex-entry_at, is_hex-sibling, all_hex-pair_up}

module _ ⦃c : Crypto⦄ where
  all_hex-path_to :
      DigestBytes
      → (fuel : ℕ) (layer : List Text) (i : ℕ) → i < length layer
      → all_hex layer ≡ true
      → all_hex (path_to (layers_from fuel layer) i) ≡ true
  unfolding layers_from path_to
  all_hex-path_to digests zero layer i h k = refl
  all_hex-path_to digests (suc fuel) layer i h k = elim (Bool-cases (leb (length layer) 1)) [
    | inl small ↦ rw small refl
    | inr large ↦
        let above : all_hex (path_to (layers_from fuel (pair_up layer)) (i / 2)) ≡ true =
          all_hex-path_to digests fuel (pair_up layer) (i / 2)
            (ground (arith, length-pair_up layer)) (all_hex-pair_up digests layer) in
        rw (large, path_to-more layer fuel (pair_up layer) i)
          (ground (arith, is_hex-sibling layer i h k, above))
  ]

  is_hex-root_of :
      DigestBytes
      → (fuel : ℕ) (layer : List Text) → 0 < length layer
      → all_hex layer ≡ true
      → is_hex (root_of (layers_from fuel layer)) (some 32) ≡ true
  unfolding layers_from root_of
  is_hex-root_of digests zero layer h k = is_hex-entry_at layer 0 h k
  is_hex-root_of digests (suc fuel) layer h k = elim (Bool-cases (leb (length layer) 1)) [
    | inl small ↦ rw small (is_hex-entry_at layer 0 h k)
    | inr large ↦
        rw (large, root_of-more layer fuel (pair_up layer))
          (is_hex-root_of digests fuel (pair_up layer) (ground (arith, length-pair_up layer))
            (all_hex-pair_up digests layer))
  ]

  fold_proof-fold_hashes :
      (current : Text) (proof : List Text) (root : Text)
      → all_hex proof ≡ true
      → fold_hashes current proof ≡ root
      → fold_proof current proof root ≡ true
  unfolding fold_proof fold_hashes
  fold_proof-fold_hashes current [] root k h = (list_beq_iff current root).1 h
  fold_proof-fold_hashes current (s ∷ proof) root k h =
      ground (arith, fold_proof-fold_hashes (combine_hashes current s) proof root)

  -- The path of each entry of the lowest layer verifies, if the entries are hashes and at most 2 ^ 48.
  pub verify_proof-path_to :
      DigestBytes
      → (fuel : ℕ) (layer : List Text) (i : ℕ) → i < length layer
      → length layer ≤ suc fuel
      → length layer ≤ 2 ^ 48
      → all_hex layer ≡ true
      → verify_proof
          (entry_at layer i)
          (path_to (layers_from fuel layer) i)
          (root_of (layers_from fuel layer))
        ≡ true
  unfolding verify_proof
  verify_proof-path_to digests fuel layer i within enough bounded k =
      let folds : fold_proof (entry_at layer i) (path_to (layers_from fuel layer) i)
            (root_of (layers_from fuel layer))
          ≡ true =
        fold_proof-fold_hashes (entry_at layer i) (path_to (layers_from fuel layer) i)
          (root_of (layers_from fuel layer)) (all_hex-path_to digests fuel layer i within k)
          (fold_hashes-path_to fuel layer i within enough) in
      ground (
        arith,
        folds,
        is_hex-entry_at layer i within k,
        is_hex-root_of digests fuel layer (omega arith) k,
        length-path_to 48 fuel layer i bounded,
      )

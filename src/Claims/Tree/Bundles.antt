-- ===== src/Claims/Tree/Bundles.antt =====
-- What a commit built by packages/claims/src/tree.ts hands out: bundles whose proofs verify.
use mathlib.Core.Path.{subst}
use kei_transaction.Common.Tests.{
  ℕ, ◌+◌, ◌-◌, ◌^◌, ◌<◌, ◌≡◌, sym, ap, ◌∙◌, true, some, List, [], ◌∷◌, ◌++◌, arith,
}
use kei_transaction.Common.Eq.{text_eq}
use kei_transaction.Common.Lists.{length, length-append}
use kei_transaction.Dict.{Dict, lookup}
use kei_transaction.Js.Text.{Text}
use kei_transaction.Js.Number.{decimal_text}
use kei_transaction.Core.Errors.{ok}
use kei_transaction.Core.Crypto.{Crypto, DigestBytes}
use kei_transaction.Core.Merkle.{salt_leaf, verify_proof}
use kei_transaction.Claims.Tree.{
  CommitEntry, ClaimBundle, BuiltCommit, amount_in, keys_of, sorted, entry_at, index_in,
  layers_from, path_to, root_of, merge_entries, recipient_leaves, built_from, build_commit,
  proof_for,
}
use kei_transaction.Claims.Tree.Hexes.{all_hex}
use kei_transaction.Claims.Tree.Leaves.{
  LeafOf, entry_at-append, entry_at-last, all_hex-append, is_hex-salt_leaf, length-recipient_leaves,
  all_hex-recipient_leaves, recipient_leaves-at,
}
use kei_transaction.Claims.Tree.Proofs.{verify_proof-path_to}

module _ ⦃c : Crypto⦄ where
  -- The parts that a built commit has been made of.
  pub record PartsOf (asset : Text) (decimals : ℕ) (entries : List CommitEntry) (salt : Text)
      (built : BuiltCommit) : Type 0 where
    pub merged : Dict Text ℕ
    pub claims : List Text
    pub last : Text
    pub merging : merge_entries decimals entries [] ≡ ok merged
    pub claiming : recipient_leaves asset merged (sorted (keys_of merged)) ≡ ok claims
    pub salting : salt_leaf salt ≡ ok last
    pub shape :
        built
        ≡ built_from asset salt merged
            (sorted (keys_of merged))
            (claims ++ last ∷ [])
            (layers_from (length (claims ++ last ∷ [])) (claims ++ last ∷ []))

  pub build_commit-inv :
      (asset : Text) (decimals : ℕ) (entries : List CommitEntry) (salt : Text) (built : BuiltCommit)
      → build_commit asset decimals entries salt ≡ ok built
      → PartsOf asset decimals entries salt built
  unfolding build_commit
  build_commit-inv asset decimals entries salt built e = grind arith

  all_hex-leaves :
      DigestBytes
      → (asset : Text) (merged : Dict Text ℕ) (recipients claims : List Text) (salt last : Text)
      → recipient_leaves asset merged recipients ≡ ok claims
      → salt_leaf salt ≡ ok last
      → all_hex (claims ++ last ∷ []) ≡ true
  all_hex-leaves digests asset merged recipients claims salt last e f =
      all_hex-append claims (last ∷ [])
        (all_hex-recipient_leaves digests asset merged recipients claims e)
        (ground (arith, is_hex-salt_leaf digests salt last f))

  proof_for-inv :
      (built : BuiltCommit) (address : Text) (bundle : ClaimBundle)
      → proof_for built address ≡ ok bundle
      → (i : ℕ) × (index_in address built.recipients 0 ≡ some i)
        × (bundle.root ≡ built.root)
        × (bundle.asset ≡ built.asset)
        × (bundle.amount ≡ decimal_text (amount_in (lookup address built.merged)))
        × (bundle.proof ≡ path_to built.layers i)
  unfolding proof_for
  proof_for-inv built address bundle e = ground arith

  bundle_verifies :
      DigestBytes
      → (asset : Text) (merged : Dict Text ℕ) (recipients claims : List Text) (salt last : Text)
      → recipient_leaves asset merged recipients ≡ ok claims
      → salt_leaf salt ≡ ok last
      → length recipients < 2 ^ 48
      → (address : Text) (i : ℕ) → index_in address recipients 0 ≡ some i
      → (leaf : Text) × LeafOf asset merged address leaf
        × (verify_proof leaf
              (path_to (layers_from (length (claims ++ last ∷ [])) (claims ++ last ∷ [])) i)
              (root_of (layers_from (length (claims ++ last ∷ [])) (claims ++ last ∷ [])))
            ≡ true)
  bundle_verifies digests asset merged recipients claims salt last e f bounded address i at =
      let leaves = claims ++ last ∷ [] in
      let count : length leaves ≡ length claims + 1 = length-append claims (last ∷ []) in
      let same : length claims ≡ length recipients =
        length-recipient_leaves asset merged recipients claims e in
      let (m, m_eq, within, of) =
        recipient_leaves-at asset merged address recipients claims 0 i e at in
      let place : m ≡ i = omega arith in
      let verified : verify_proof (entry_at leaves m)
            (path_to (layers_from (length leaves) leaves) m)
            (root_of (layers_from (length leaves) leaves))
          ≡ true =
        verify_proof-path_to digests (length leaves) leaves m (omega arith) (omega arith)
          (omega arith) (all_hex-leaves digests asset merged recipients claims salt last e f) in
      (
        entry_at claims m,
        of,
        rw (sym (entry_at-append claims (last ∷ []) m within)) (
            subst
              (λ k.
                verify_proof (entry_at leaves m) (path_to (layers_from (length leaves) leaves) k)
                  (root_of (layers_from (length leaves) leaves))
                ≡ true)
              place verified),
      )

  salt_verifies :
      DigestBytes
      → (asset : Text) (merged : Dict Text ℕ) (recipients claims : List Text) (salt last : Text)
      → recipient_leaves asset merged recipients ≡ ok claims
      → salt_leaf salt ≡ ok last
      → length recipients < 2 ^ 48
      → verify_proof last
          (path_to
            (layers_from (length (claims ++ last ∷ [])) (claims ++ last ∷ []))
            (length (claims ++ last ∷ []) - 1))
          (root_of (layers_from (length (claims ++ last ∷ [])) (claims ++ last ∷ [])))
        ≡ true
  salt_verifies digests asset merged recipients claims salt last e f bounded =
      let leaves = claims ++ last ∷ [] in
      let count : length leaves ≡ length claims + 1 = length-append claims (last ∷ []) in
      let same : length claims ≡ length recipients =
        length-recipient_leaves asset merged recipients claims e in
      let place : length claims ≡ length leaves - 1 = omega arith in
      let verified : verify_proof (entry_at leaves (length claims))
            (path_to (layers_from (length leaves) leaves) (length claims))
            (root_of (layers_from (length leaves) leaves))
          ≡ true =
        verify_proof-path_to digests (length leaves) leaves (length claims) (omega arith)
          (omega arith) (omega arith)
          (all_hex-leaves digests asset merged recipients claims salt last e f) in
      subst
        (λ x.
          verify_proof x (path_to (layers_from (length leaves) leaves) (length leaves - 1))
            (root_of (layers_from (length leaves) leaves))
          ≡ true)
        (entry_at-last claims last)
        (subst
          (λ k.
            verify_proof (entry_at leaves (length claims))
              (path_to (layers_from (length leaves) leaves) k)
              (root_of (layers_from (length leaves) leaves))
            ≡ true)
          place verified)

  -- The bundle of a recipient proves the recipient's merged amount of the asset against the
  -- commit's root, if there are fewer than 2 ^ 48 recipients and a digest is a list of as many bytes
  -- as were asked for.
  pub proof_for-verify_proof :
      DigestBytes
      → (asset : Text) (decimals : ℕ) (entries : List CommitEntry) (salt : Text)
        (built : BuiltCommit)
      → build_commit asset decimals entries salt ≡ ok built
      → built.count < 2 ^ 48
      → (address : Text) (bundle : ClaimBundle) → proof_for built address ≡ ok bundle
      → (leaf : Text) × LeafOf asset built.merged address leaf
        × (bundle.amount ≡ decimal_text (amount_in (lookup address built.merged)))
        × (verify_proof leaf bundle.proof bundle.root ≡ true)
  proof_for-verify_proof digests asset decimals entries salt built e bounded address bundle f =
      let parts = build_commit-inv asset decimals entries salt built e in
      let (i, at, root, _, amount, proof) = proof_for-inv built address bundle f in
      let shape = parts.shape in
      let (leaf, of, verified) =
        bundle_verifies digests asset parts.merged (sorted (keys_of parts.merged)) parts.claims salt
          parts.last parts.claiming parts.salting (subst (λ b. b.count < 2 ^ 48) shape bounded)
          address i (subst (λ b. index_in address b.recipients 0 ≡ some i) shape at) in
      (
        leaf,
        subst (λ b. LeafOf asset b.merged address leaf) (sym shape) of,
        amount,
        rw (proof, root, ap (λ b. path_to b.layers i) shape, ap (λ b. b.root) shape) verified,
      )

  -- The proof of the salt verifies against the commit's root.
  pub salt_proof-verify_proof :
      DigestBytes
      → (asset : Text) (decimals : ℕ) (entries : List CommitEntry) (salt : Text)
        (built : BuiltCommit)
      → build_commit asset decimals entries salt ≡ ok built
      → built.count < 2 ^ 48
      → (leaf : Text) → salt_leaf salt ≡ ok leaf
      → verify_proof leaf built.salt_proof built.root ≡ true
  salt_proof-verify_proof digests asset decimals entries salt built e bounded leaf f =
      let parts = build_commit-inv asset decimals entries salt built e in
      let shape = parts.shape in
      let verified =
        salt_verifies digests asset parts.merged (sorted (keys_of parts.merged)) parts.claims salt
          parts.last parts.claiming parts.salting (subst (λ b. b.count < 2 ^ 48) shape bounded) in
      let same : parts.last ≡ leaf = ground (arith, parts.salting) in rw (shape, sym same) verified

  pub proof_for-asset :
      (asset : Text) (decimals : ℕ) (entries : List CommitEntry) (salt : Text) (built : BuiltCommit)
      → build_commit asset decimals entries salt ≡ ok built
      → (address : Text) (bundle : ClaimBundle) → proof_for built address ≡ ok bundle
      → bundle.asset ≡ asset
  proof_for-asset asset decimals entries salt built e address bundle f =
      let parts = build_commit-inv asset decimals entries salt built e in
      let (_, _, _, same, _, _) = proof_for-inv built address bundle f in
      same ∙ ap (λ b. b.asset) parts.shape

  pub proof_for-root :
      (built : BuiltCommit) (address : Text) (bundle : ClaimBundle)
      → proof_for built address ≡ ok bundle
      → bundle.root ≡ built.root
  proof_for-root built address bundle f =
      let (_, _, same, _, _, _) = proof_for-inv built address bundle f in same

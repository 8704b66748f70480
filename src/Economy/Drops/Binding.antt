-- ===== src/Economy/Drops/Binding.antt =====
-- The awards that packages/economy/src/batch.ts publishes, before the check that packages/economy/src/drops.ts makes of them.
use kei_transaction.Common.Tests.{ℕ, ◌^◌, ◌<◌, ◌≡◌, refl, sym, ap, ◌∙◌, true, some, List, arith}
use kei_transaction.Common.Eq.{list_beq_iff, ◌==◌, text_eq}
use kei_transaction.Dict.{lookup}
use kei_transaction.Js.Text.{Text}
use kei_transaction.Js.Number.{decimal_from, is_decimal}
use kei_transaction.Js.Number.Digits.{decimal_text-read, decimal_text-digits}
use kei_transaction.Core.Errors.{ok}
use kei_transaction.Core.Hex.{is_hex}
use kei_transaction.Core.Crypto.{Crypto, DigestBytes}
use kei_transaction.Core.Merkle.{verify_proof, leaf_hash, salt_leaf}
use kei_transaction.Core.Address.{public_key_from_address}
use kei_transaction.Claims.Tree.{
  CommitEntry, BuiltCommit, ClaimBundle, build_commit, proof_for, amount_in,
}
use kei_transaction.Claims.Tree.Bundles.{
  proof_for-verify_proof, salt_proof-verify_proof, proof_for-asset, proof_for-root,
  build_commit-inv,
}
use kei_transaction.Economy.Drops.{
  DropTable, DropAward, award_of, assert_award_shape, drop_salt, check_drop_binding,
}

text_same : (s : Text) → (s == s) ≡ true
text_same s = (list_beq_iff s s).1 refl

shape_passes :
    (award : DropAward)
    → is_hex award.root (some 32) ≡ true
    → is_hex award.asset (some 32) ≡ true
    → is_decimal award.amount ≡ true
    → assert_award_shape award ≡ ok tt
unfolding assert_award_shape
shape_passes award h k l = rw (h, k, l) refl

module _ ⦃c : Crypto⦄ where
  verify_proof-root :
      (leaf : Text) (proof : List Text) (root : Text)
      → verify_proof leaf proof root ≡ true
      → is_hex root (some 32) ≡ true
  unfolding verify_proof
  verify_proof-root leaf proof root h = ground arith

  -- The checks in the order in which they are made.
  check_drop_binding-passes :
      (award : DropAward) (table : DropTable) (account salt bound key leaf : Text)
      → assert_award_shape award ≡ ok tt
      → award.table ≡ table.id
      → award.digest ≡ table.digest
      → drop_salt award.digest award.nonce ≡ ok salt
      → salt_leaf salt ≡ ok bound
      → verify_proof bound award.salt_proof award.root ≡ true
      → public_key_from_address account ≡ ok key
      → leaf_hash key award.asset (decimal_from 0 award.amount) ≡ ok leaf
      → verify_proof leaf award.proof award.root ≡ true
      → check_drop_binding award table account ≡ ok tt
  unfolding check_drop_binding
  check_drop_binding-passes award table account salt bound key leaf shape named same salted bound_of
        binds keyed hashed owed =
      rw
        (
          shape,
          named,
          same,
          text_same table.id,
          text_same table.digest,
          sym same,
          salted,
          bound_of,
          binds,
          keyed,
          hashed,
          owed,
        )
        refl

  -- An award passes the player's check against the table that it was published for, if the salt of the commit is the one
  -- that the table's digest and the nonce make, the asset is an id, there are fewer than 2 ^ 48 players, and a digest is
  -- a list of as many bytes as were asked for.
  pub check_drop_binding-award_of :
      DigestBytes
      → (asset : Text) (decimals : ℕ) (entries : List CommitEntry) (salt : Text)
        (built : BuiltCommit)
      → build_commit asset decimals entries salt ≡ ok built
      → built.count < 2 ^ 48
      → is_hex asset (some 32) ≡ true
      → (table : DropTable) (nonce : Text) → drop_salt table.digest nonce ≡ ok salt
      → (account : Text) (bundle : ClaimBundle) → proof_for built account ≡ ok bundle
      → check_drop_binding (award_of table nonce built bundle) table account ≡ ok tt
  unfolding award_of
  check_drop_binding-award_of digests asset decimals entries salt built e bounded id table nonce
        salted account bundle f =
      let parts = build_commit-inv asset decimals entries salt built e in
      let (leaf, of, amount, owed) =
        proof_for-verify_proof digests asset decimals entries salt built e bounded account bundle
          f in
      let same_asset = proof_for-asset asset decimals entries salt built e account bundle f in
      let same_root = proof_for-root built account bundle f in
      let binds =
        salt_proof-verify_proof digests asset decimals entries salt built e bounded parts.last
          parts.salting in
      let read : decimal_from 0 bundle.amount ≡ amount_in (lookup account built.merged) =
        ap (λ s. decimal_from 0 s) amount
        ∙ decimal_text-read (amount_in (lookup account built.merged)) in
      check_drop_binding-passes (award_of table nonce built bundle) table account salt parts.last
        of.key leaf
        (shape_passes (award_of table nonce built bundle)
          (verify_proof-root leaf bundle.proof bundle.root owed)
          (ap (λ s. is_hex s (some 32)) same_asset ∙ id)
          (ap is_decimal amount ∙ decimal_text-digits (amount_in (lookup account built.merged))))
        refl refl salted parts.salting
        (ap (λ s. verify_proof parts.last built.salt_proof s) same_root ∙ binds) of.keyed
        (ap (λ s. leaf_hash of.key s (decimal_from 0 bundle.amount)) same_asset
          ∙ ap (λ n. leaf_hash of.key asset n) read
          ∙ of.hashed)
        owed

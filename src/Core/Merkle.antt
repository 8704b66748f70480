-- ===== src/Core/Merkle.antt =====
-- packages/core/src/merkle.ts: leaves, internal nodes and proofs.
use kei_transaction.Common.Tests.{
  ℕ, Bool, true, false, not, ◌&&◌, ◌||◌, some, List, [], ◌∷◌, ◌++◌, leb, ltb, eqb, if◌then◌else◌,
}
use kei_transaction.Common.Eq.{◌==◌, text_eq}
use kei_transaction.Common.Lists.{length}
use kei_transaction.Js.Text.{Text, utf8}
use kei_transaction.Core.Errors.{Result, ok, bad_salt, fail_if, ◌>>=◌, ◌>>◌}
use kei_transaction.Core.Hex.{is_hex, hex_to_bytes, bytes_to_hex, bigint_to_bytes, pairs_to_bytes}
use kei_transaction.Core.Blocks.{normalize_symbol}
use kei_transaction.Core.Crypto.{Crypto}

abbrev pub max_proof_length : ℕ
max_proof_length = 48

-- `left <= right` on texts: by code units, a prefix first.
unfoldable pub text_le : Text → Text → Bool
text_le [] ys = true
text_le (x ∷ xs) [] = false
text_le (x ∷ xs) (y ∷ ys) = ltb x y || (eqb x y && text_le xs ys)

module _ ⦃c : Crypto⦄ where
  -- blocks.ts
  unfoldable pub derive_asset_id : Text → Text → Result Text
  derive_asset_id issuer_public_key symbol = do
    key ← hex_to_bytes issuer_public_key
    normal ← normalize_symbol symbol
    ok (bytes_to_hex (c.blake2b (key ++ utf8 normal) 32))

  unfoldable pub leaf_hash : Text → Text → ℕ → Result Text
  leaf_hash recipient_public_key asset amount = do
    key ← hex_to_bytes recipient_public_key
    id ← hex_to_bytes asset
    bytes ← bigint_to_bytes amount 16
    ok (bytes_to_hex (c.blake2b (0x00 ∷ (key ++ id ++ bytes)) 32))

  unfoldable pub salt_leaf : Text → Result Text
  salt_leaf salt = do
    fail_if (not (is_hex salt (some 32))) bad_salt
    ok (bytes_to_hex (c.blake2b (0x02 ∷ pairs_to_bytes salt) 32))

  -- Both arguments are digests wherever this is called, so `hexToBytes` does not throw.
  unfoldable pub combine_hashes : Text → Text → Text
  combine_hashes left right =
      let first = if text_le left right then left else right in
      let second = if text_le left right then right else left in
      bytes_to_hex (c.blake2b (0x01 ∷ (pairs_to_bytes first ++ pairs_to_bytes second)) 32)

  -- The loop of `verifyProof` from `current`.
  unfoldable pub fold_proof : Text → List Text → Text → Bool
  fold_proof current [] root = current == root
  fold_proof current (sibling ∷ proof) root =
      is_hex sibling (some 32) && fold_proof (combine_hashes current sibling) proof root

  unfoldable pub verify_proof : Text → List Text → Text → Bool
  unfolding fold_proof
  verify_proof leaf proof root =
      is_hex leaf (some 32)
      && is_hex root (some 32)
      && leb (length proof) max_proof_length
      && fold_proof leaf proof root

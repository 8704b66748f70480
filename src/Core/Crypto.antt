-- ===== src/Core/Crypto.antt =====
-- packages/core/src/crypto.ts: what the package takes from bananojs, as an interface, and block
-- hashes. `preimage` gives the bytes that a block is hashed over, which `hashed_bytes` of Wire does as
-- hash.ts and wire.ts do, and fails where they throw.
use kei_transaction.Common.Tests.{ℕ, ◌≡◌, Bool, true, List}
use kei_transaction.Common.Lists.{length}
use kei_transaction.Js.Text.{Text}
use kei_transaction.Core.Errors.{Result, ok, ◌>>=◌}
use kei_transaction.Core.Hex.{all_bytes, bytes_to_hex}
use kei_transaction.Core.Blocks.{BlockBody, zero_hash}

pub record Crypto : Type 0 where
  -- `blake2b(bytes, size)`
  pub blake2b : List ℕ → ℕ → List ℕ
  -- `encodeAddress(publicKey, prefix)`
  pub encode_address : Text → Text → Text
  -- `verifyHash(hash, signature, publicKey)`
  pub verify_hash : Text → Text → Text → Bool
  pub preimage : BlockBody → Result (List ℕ)

module _ ⦃c : Crypto⦄ where
  unfoldable pub hash_block : BlockBody → Result Text
  hash_block body = do bytes ← c.preimage body; ok (bytes_to_hex (c.blake2b bytes 32))

  -- A digest of 32 bytes is never all zeros, so nothing but Kei has the id of Kei.
  abbrev pub NoZeroDigest : Type 0
  NoZeroDigest = (message : List ℕ) → bytes_to_hex (c.blake2b message 32) ≡ zero_hash → ⊥

  -- A digest of 32 bytes is 32 bytes.
  abbrev pub DigestBytes : Type 0
  DigestBytes =
      (message : List ℕ)
      → (length (c.blake2b message 32) ≡ 32) × (all_bytes (c.blake2b message 32) ≡ true)

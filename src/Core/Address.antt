-- ===== src/Core/Address.antt =====
-- packages/core/src/address.ts.
use mathlib.Core.List.{reverse}
use kei_transaction.Common.Tests.{
  ℕ, suc, ◌+◌, ◌*◌, ◌^◌, not, Option, none, some, List, [], ◌∷◌, leb, eqb, if◌then◌else◌,
}
use kei_transaction.Common.Eq.{◌==◌, text_eq}
use kei_transaction.Common.Lists.{length, take, drop, replicate}
use kei_transaction.Js.Text.{Text, text, upper}
use kei_transaction.Core.Errors.{Result, ok, err, bad_public_key, bad_address, fail_if, ◌>>=◌, ◌>>◌}
use kei_transaction.Core.Hex.{is_hex, bytes_to_hex, bytes_below}
use kei_transaction.Core.Crypto.{Crypto}

abbrev pub address_prefix : Text
address_prefix = text "kei_"

abbrev pub alphabet : Text
alphabet = text "13456789abcdefghijkmnopqrstuwxyz"

abbrev pub body_length : ℕ
body_length = 52

abbrev pub checksum_length : ℕ
checksum_length = 8

-- `text.indexOf(character)`, counted from `i`.
unfoldable pub index_of : ℕ → Text → ℕ → Option ℕ
index_of c [] i = none
index_of c (d ∷ s) i = if eqb c d then some i else index_of c s (suc i)

unfoldable pub decode_base32 : ℕ → Text → Result ℕ
unfolding index_of
decode_base32 value [] = ok value
decode_base32 value (c ∷ s) = elim (index_of c alphabet 0) [
  | none ↦ err bad_address
  | some digit ↦ decode_base32 (value * 32 + digit) s
]

-- The last `length` bytes of the value; what does not fit is dropped.
unfoldable pub bigint_to_fixed_bytes : ℕ → ℕ → List ℕ
bigint_to_fixed_bytes value size = (bytes_below size value []).0

module _ ⦃c : Crypto⦄ where
  unfoldable pub address_from_public_key : Text → Result Text
  address_from_public_key public_key = do
    fail_if (not (is_hex public_key (some 32))) bad_public_key
    ok (c.encode_address (upper public_key) address_prefix)

  unfoldable pub checksum_of : List ℕ → List ℕ
  checksum_of public_key = reverse (c.blake2b public_key 5)

  unfoldable pub public_key_from_address : Text → Result Text
  unfolding decode_base32 bigint_to_fixed_bytes checksum_of
  public_key_from_address address =
      let body = drop 4 address in
      do
        fail_if (not (take 4 address == address_prefix)) bad_address
        fail_if (not (eqb (length body) (body_length + checksum_length))) bad_address
        key_value ← decode_base32 0 (take body_length body)
        fail_if (leb (2 ^ 256) key_value) bad_address
        checksum ← decode_base32 0 (drop body_length body)
        let public_key = bigint_to_fixed_bytes key_value 32
        fail_if (not (checksum_of public_key == bigint_to_fixed_bytes checksum 5)) bad_address
        ok (bytes_to_hex public_key)

  -- `assertAddress(value)` returns its argument; a missing value is the empty text.
  unfoldable pub assert_address : Text → Result Text
  assert_address value = do
    fail_if (eqb (length value) 0) bad_address
    _ ← public_key_from_address value
    ok value

  -- `NULL_REPRESENTATIVE`: the all-zero public key, encoded.
  unfoldable pub null_representative : Text
  null_representative = c.encode_address (replicate 64 b'0') address_prefix

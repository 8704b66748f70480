-- ===== src/Core/Hex/RoundTrip.antt =====
-- packages/core/src/hex.ts: reading what was written.
use kei_transaction.Common.Tests.{
  ℕ, zero, suc, ◌+◌, ◌*◌, ◌/◌, ◌%◌, ◌<◌, ◌≡◌, refl, sym, ap, ◌∙◌, true, false, List, [], ◌∷◌, arith,
  eqb,
}
use kei_transaction.Common.Lists.{length}
use kei_transaction.Js.Text.{upper, upper_unit}
use kei_transaction.Core.Errors.{ok}
use kei_transaction.Core.Hex.{
  all_bytes, is_hex, hex_digit, hex_value, pairs_to_bytes, hex_to_bytes, bytes_to_digits,
  bytes_to_hex, bytes_below, bigint_to_bytes,
}
use kei_transaction.Core.Hex.Digits.{all-hex_digits, length-bytes_to_hex}

-- The number that big-endian bytes stand for.
unfoldable pub bytes_value : ℕ → List ℕ → ℕ
bytes_value n [] = n
bytes_value n (b ∷ bytes) = bytes_value (n * 256 + b) bytes

bytes_below-value :
    (n rest : ℕ) (out : List ℕ)
    → bytes_value ((bytes_below n rest out).1) ((bytes_below n rest out).0) ≡ bytes_value rest out
unfolding bytes_below bytes_value
bytes_below-value zero rest out = refl
bytes_below-value (suc n) rest out =
    let whole : rest / 256 * 256 + rest % 256 ≡ rest = omega arith in
    bytes_below-value n (rest / 256) ((rest % 256) ∷ out) ∙ ap (λ k. bytes_value k out) whole

-- The bytes of a number that fits are the number, most significant first.
pub bytes_value-bigint_to_bytes :
    (value size : ℕ) (bytes : List ℕ)
    → bigint_to_bytes value size ≡ ok bytes
    → bytes_value 0 bytes ≡ value
unfolding bigint_to_bytes bytes_value
bytes_value-bigint_to_bytes value size bytes e =
    let all = bytes_below-value size value [] in
    let none_left : (bytes_below size value []).1 ≡ 0 = ground arith in
    let same : bytes ≡ (bytes_below size value []).0 = ground arith in rw (same, sym none_left) all

hex_value-hex_digit : (n : ℕ) → n < 16 → hex_value (upper_unit (hex_digit n)) ≡ n
unfolding hex_value upper_unit hex_digit
hex_value-hex_digit n h = ground arith

pairs_to_bytes-bytes_to_hex :
    (bytes : List ℕ) → all_bytes bytes ≡ true → pairs_to_bytes (bytes_to_hex bytes) ≡ bytes
unfolding pairs_to_bytes bytes_to_hex bytes_to_digits upper
pairs_to_bytes-bytes_to_hex [] h = refl
pairs_to_bytes-bytes_to_hex (b ∷ bytes) h =
    let byte : b < 256 = ground arith in
    let high = hex_value-hex_digit (b / 16) (omega arith) in
    let low = hex_value-hex_digit (b % 16) (omega arith) in
    let both : b / 16 * 16 + b % 16 ≡ b = omega arith in
    let rest : pairs_to_bytes (bytes_to_hex bytes) ≡ bytes =
      pairs_to_bytes-bytes_to_hex bytes (ground arith) in
    rw (high, low, both) (ap (λ s. b ∷ s) rest)

-- Bytes that are written as hexadecimal are read back, if there is one at least: the empty text is no hexadecimal.
pub hex_to_bytes-bytes_to_hex :
    (bytes : List ℕ)
    → all_bytes bytes ≡ true
    → 0 < length bytes
    → hex_to_bytes (bytes_to_hex bytes) ≡ ok bytes
unfolding hex_to_bytes is_hex
hex_to_bytes-bytes_to_hex bytes h k =
    let size = length-bytes_to_hex bytes in
    let there : eqb (length (bytes_to_hex bytes)) 0 ≡ false = ground arith in
    let even : eqb (length (bytes_to_hex bytes) % 2) 0 ≡ true = ground arith in
    rw (there, all-hex_digits bytes h, even, pairs_to_bytes-bytes_to_hex bytes h) refl

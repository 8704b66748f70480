-- ===== src/Core/Hex/Digits.antt =====
-- What packages/core/src/hex.ts renders is what it reads.
use kei_transaction.Common.Tests.{
  ℕ, ◌*◌, ◌/◌, ◌%◌, ◌<◌, ◌≡◌, refl, true, some, List, [], ◌∷◌, arith,
}
use kei_transaction.Common.Lists.{length, all}
use kei_transaction.Js.Text.{upper, upper_unit}
use kei_transaction.Core.Hex.{
  all_bytes, is_hex, is_hex_digit, hex_digit, bytes_to_digits, bytes_to_hex,
}

hex_digit_lem : (n : ℕ) → n < 16 → is_hex_digit (upper_unit (hex_digit n)) ≡ true
unfolding hex_digit upper_unit is_hex_digit
hex_digit_lem n h = ground arith

pub all-hex_digits :
    (bytes : List ℕ) → all_bytes bytes ≡ true → all is_hex_digit (bytes_to_hex bytes) ≡ true
unfolding bytes_to_hex bytes_to_digits upper
all-hex_digits [] h = refl
all-hex_digits (b ∷ bytes) h =
    ground (arith, hex_digit_lem (b / 16), hex_digit_lem (b % 16), all-hex_digits bytes)

pub length-bytes_to_hex : (bytes : List ℕ) → length (bytes_to_hex bytes) ≡ length bytes * 2
unfolding bytes_to_hex bytes_to_digits upper
length-bytes_to_hex [] = refl
length-bytes_to_hex (b ∷ bytes) = omega (arith, length-bytes_to_hex bytes)

pub is_hex-bytes_to_hex :
    (bytes : List ℕ)
    → length bytes ≡ 32
    → all_bytes bytes ≡ true
    → is_hex (bytes_to_hex bytes) (some 32) ≡ true
unfolding is_hex
is_hex-bytes_to_hex bytes l h = ground (arith, all-hex_digits bytes h, length-bytes_to_hex bytes)

-- ===== src/Core/Hex.antt =====
-- packages/core/src/hex.ts.
pub mod Digits
pub mod RoundTrip
use kei_transaction.Common.Tests.{
  ℕ, zero, suc, ◌+◌, ◌-◌, ◌*◌, ◌/◌, ◌%◌, ◌≡◌, Bool, true, ◌&&◌, ◌||◌, not, Option, none, some, List,
  [], ◌∷◌, ◌++◌, leb, ltb, eqb, if◌then◌else◌,
}
use kei_transaction.Common.Lists.{length, all}
use kei_transaction.Js.Text.{Text, upper, upper-upper}
use kei_transaction.Core.Errors.{Result, ok, bad_hex, overflow, ◌>>◌, fail_if}

-- The class of the pattern `HEX`.
unfoldable pub is_hex_digit : ℕ → Bool
is_hex_digit c =
    (leb b'0' c && leb c b'9') || (leb b'A' c && leb c b'F') || (leb b'a' c && leb c b'f')

-- `isHex(value, bytes)`; the argument `bytes` is optional.
unfoldable pub is_hex : Text → Option ℕ → Bool
unfolding is_hex_digit
is_hex value bytes =
    not (eqb (length value) 0)
    && all is_hex_digit value
    && eqb (length value % 2) 0
    && elim bytes [ none ↦ true | some n ↦ eqb (length value) (n * 2) ]

-- `Number.parseInt(c, 16)` of one digit.
unfoldable pub hex_value : ℕ → ℕ
hex_value c = if leb c b'9' then c - b'0' else if leb c b'F' then c - 55 else c - 87

unfoldable pub pairs_to_bytes : Text → List ℕ
unfolding hex_value
pairs_to_bytes [] = []
pairs_to_bytes (a ∷ []) = []
pairs_to_bytes (a ∷ b ∷ s) = (hex_value a * 16 + hex_value b) ∷ pairs_to_bytes s

unfoldable pub hex_to_bytes : Text → Result (List ℕ)
unfolding is_hex pairs_to_bytes
hex_to_bytes hex = do fail_if (not (is_hex hex none)) bad_hex; ok (pairs_to_bytes hex)

-- One digit of `byte.toString(16)`.
unfoldable pub hex_digit : ℕ → ℕ
hex_digit n = if leb n 9 then b'0' + n else b'a' + (n - 10)

unfoldable pub bytes_to_digits : List ℕ → Text
unfolding hex_digit
bytes_to_digits [] = []
bytes_to_digits (b ∷ bytes) = hex_digit (b / 16) ∷ hex_digit (b % 16) ∷ bytes_to_digits bytes

unfoldable pub bytes_to_hex : List ℕ → Text
unfolding bytes_to_digits
bytes_to_hex bytes = upper (bytes_to_digits bytes)

-- The bytes of `value` from the last up, with what does not fit.
unfoldable pub bytes_below : ℕ → ℕ → List ℕ → List ℕ × ℕ
bytes_below zero rest out = (out, rest)
bytes_below (suc n) rest out = bytes_below n (rest / 256) ((rest % 256) ∷ out)

unfoldable pub bigint_to_bytes : ℕ → ℕ → Result (List ℕ)
unfolding bytes_below
bigint_to_bytes value bytes =
    let (out, rest) = bytes_below bytes value [] in do fail_if (not (eqb rest 0)) overflow; ok out

abbrev pub concat : List (List ℕ) → List ℕ
concat [] = []
concat (part ∷ parts) = part ++ concat parts

abbrev pub all_bytes : List ℕ → Bool
all_bytes bytes = all (λ b. ltb b 256) bytes

-- A rendered digest is in upper case already.
pub upper-bytes_to_hex : (bytes : List ℕ) → upper (bytes_to_hex bytes) ≡ bytes_to_hex bytes
unfolding bytes_to_hex
upper-bytes_to_hex bytes = upper-upper (bytes_to_digits bytes)

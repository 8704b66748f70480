-- ===== src/Js/Number.antt =====
-- A field that the source declares `number` and checks with `Number.isInteger`; and the decimal
-- text of a whole number, as `BigInt` reads it.
pub mod Digits
use kei_transaction.Common.Tests.{
  zero, ltb, if◌then◌else◌, ◌%◌, ◌/◌, suc, ℕ, ◌+◌, ◌-◌, ◌*◌, ◌^◌, Bool, false, ◌&&◌, [], ◌∷◌, leb,
}
use kei_transaction.Common.Lists.{all}
use kei_transaction.Js.Text.{Text}

-- `negative n` is -(n + 1). `fraction low` is a value with a fraction, of whose whole part `low` is the
-- low byte, as `value & 0xff` gives it; `not_finite` is an infinity or NaN.
pub data Number : Type 0 where
  whole : ℕ → Number
  negative : ℕ → Number
  fraction : ℕ → Number
  not_finite : Number

unfoldable pub is_digit : ℕ → Bool
is_digit c = leb b'0' c && leb c b'9'

-- `BigInt(s)` on a text of decimal digits.
unfoldable pub decimal_from : ℕ → Text → ℕ
decimal_from n [] = n
decimal_from n (c ∷ s) = decimal_from (n * 10 + (c - b'0')) s

-- /^\d+$/
unfoldable pub is_decimal : Text → Bool
unfolding is_digit
is_decimal [] = false
is_decimal (c ∷ s) = all is_digit (c ∷ s)

-- How often a number is halved until it is below 2 ^ 53. Forty halvings are enough below 2 ^ 93, which
-- a product of a word of 32 bits and a number below 2 ^ 53 is.
unfoldable pub halvings : ℕ → ℕ → ℕ
halvings zero n = zero
halvings (suc fuel) n =
    let more = suc (halvings fuel (n / 2)) in if ltb n (2 ^ 53) then zero else more

-- The multiple of `unit` nearest to `n`, and of two that are as near the even one.
unfoldable pub nearest : ℕ → ℕ → ℕ
nearest unit n =
    let low = n / unit in
    let rest = 2 * (n % unit) in
    if ltb rest unit
    then low * unit
    else if ltb unit rest
    then (low + 1) * unit
    else (low + low % 2) * unit

-- A whole number as the `number` that stands for it, which has 53 binary digits.
unfoldable pub round_double : ℕ → ℕ
unfolding halvings nearest
round_double n = nearest (2 ^ halvings 40 n) n

-- `Number.MAX_SAFE_INTEGER`
abbrev pub max_safe_integer : ℕ
max_safe_integer = 2 ^ 53 - 1

-- The digits of `n`, before those of `out`. A number has at most as many digits as its successor.
unfoldable pub digits_before : ℕ → ℕ → Text → Text
digits_before zero n out = out
digits_before (suc fuel) n out =
    let rest = digits_before fuel (n / 10) ((b'0' + n % 10) ∷ out) in
    if ltb n 10 then (b'0' + n) ∷ out else rest

-- `n.toString()`
unfoldable pub decimal_text : ℕ → Text
unfolding digits_before
decimal_text n = digits_before (suc n) n []

-- A `bigint` that may be negative; `negsuc n` is -(n + 1).
pub data ℤ : Type 0 where
  pos : ℕ → ℤ
  negsuc : ℕ → ℤ

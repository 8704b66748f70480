-- ===== src/Js/Number/Digits.antt =====
-- The decimal text of a number is digits, and reads as the number.
use kei_transaction.Common.Tests.{
  ℕ, zero, suc, ◌+◌, ◌-◌, ◌*◌, ◌/◌, ◌%◌, ◌<◌, ◌≡◌, refl, ◌∙◌, true, [], ◌∷◌, arith, ltb, Bool-cases,
  inl, inr,
}
use kei_transaction.Common.Lists.{all}
use kei_transaction.Js.Text.{Text}
use kei_transaction.Js.Number.{is_digit, is_decimal, decimal_from, digits_before, decimal_text}

digit_again : (n : ℕ) (out : Text) → n < 10 → decimal_from 0 ((b'0' + n) ∷ out) ≡ decimal_from n out
unfolding decimal_from
digit_again n out small = let same : 0 * 10 + (b'0' + n - b'0') ≡ n = omega arith in rw same refl

last_digit :
    (n : ℕ) (out : Text) → decimal_from (n / 10) ((b'0' + n % 10) ∷ out) ≡ decimal_from n out
unfolding decimal_from
last_digit n out = let same : n / 10 * 10 + (b'0' + n % 10 - b'0') ≡ n = omega arith in rw same refl

digits_before-read :
    (fuel n : ℕ) (out : Text)
    → n < fuel
    → decimal_from 0 (digits_before fuel n out) ≡ decimal_from n out
unfolding digits_before
digits_before-read zero n out enough = omega arith
digits_before-read (suc fuel) n out enough = elim (Bool-cases (ltb n 10)) [
  | inl small ↦ rw small (digit_again n out (ground arith))
  | inr large ↦
      let less : n / 10 < fuel = ground arith in
      rw large (digits_before-read fuel (n / 10) ((b'0' + n % 10) ∷ out) less ∙ last_digit n out)
]

digit_first :
    (n : ℕ) (out : Text) → n < 10 → all is_digit out ≡ true → is_decimal ((b'0' + n) ∷ out) ≡ true
unfolding is_decimal is_digit
digit_first n out small h = ground arith

digits_before-digits :
    (fuel n : ℕ) (out : Text)
    → is_decimal out ≡ true
    → all is_digit out ≡ true
    → is_decimal (digits_before fuel n out) ≡ true
unfolding digits_before is_decimal is_digit
digits_before-digits zero n out some_digit h = some_digit
digits_before-digits (suc fuel) n out some_digit h =
    let rest = digits_before-digits fuel (n / 10) ((b'0' + n % 10) ∷ out) in
    ground (arith, rest, digit_first n out)

pub decimal_text-digits : (n : ℕ) → is_decimal (decimal_text n) ≡ true
unfolding decimal_text digits_before is_decimal is_digit
decimal_text-digits n = elim (Bool-cases (ltb n 10)) [
  | inl small ↦ rw small (digit_first n [] (ground arith) refl)
  | inr large ↦
      let first = digit_first (n % 10) [] (omega arith) refl in
      rw large (digits_before-digits n (n / 10) ((b'0' + n % 10) ∷ []) first first)
]

pub decimal_text-read : (n : ℕ) → decimal_from 0 (decimal_text n) ≡ n
unfolding decimal_text decimal_from
decimal_text-read n = digits_before-read (suc n) n [] (omega arith)

-- ===== src/Core/Amount/Raw.antt =====
-- packages/core/src/amount.ts: `toRaw`, `formatRaw` and what they stand on. A number is given by the
-- text that `String` makes of it, or as one that is not finite.
use kei_transaction.Common.Tests.{
  ℕ, zero, suc, ◌+◌, ◌-◌, Bool, false, ◌&&◌, ◌||◌, Option, none, some, [], ◌∷◌, ◌++◌, eqb, leb, ltb,
  if◌then◌else◌,
}
use kei_transaction.Common.Eq.{text_eq}
use kei_transaction.Common.Lists.{length, take, drop, all, replicate}
use kei_transaction.Js.Text.{Text, trim}
use kei_transaction.Js.Number.{ℤ, pos, negsuc, is_digit, decimal_from, decimal_text}
use kei_transaction.Core.Errors.{
  Result, ok, err, bad_amount, too_precise, fail_if, or_fail, ◌>>=◌, ◌>>◌,
}

-- An amount as a developer gives it.
pub data AmountInput : Type 0 where
  typed : Text → AmountInput
  printed : Text → AmountInput
  not_finite : AmountInput

-- The digits at the front of a text, and what follows them.
unfoldable pub span_digits : Text → Text × Text
unfolding is_digit
span_digits [] = ([], [])
span_digits (c ∷ s) =
    let (digits, rest) = span_digits s in if is_digit c then (c ∷ digits, rest) else ([], c ∷ s)

-- `^\+?`
unfoldable pub strip_plus : Text → Text
strip_plus [] = []
strip_plus (c ∷ s) = if eqb c b'+' then s else c ∷ s

-- What follows the whole part: nothing, or a point and digits.
unfoldable pub fraction_of : Text → Option Text
fraction_of [] = some []
fraction_of (c ∷ s) = if eqb c b'.' && all is_digit s then some s else none

-- /^\+?(\d*)(?:\.(\d*))?$/ with its two groups, of which one is not empty.
unfoldable pub match_decimal : Text → Option (Text × Text)
unfolding span_digits strip_plus fraction_of
match_decimal text =
    let (whole, rest) = span_digits (strip_plus text) in
    elim (fraction_of rest) [
      | none ↦ none
      | some fraction ↦
          if eqb (length whole) 0 && eqb (length fraction) 0 then none else some (whole, fraction)
    ]

-- `replace(/0+$/, '')`
unfoldable pub trim_zeros : Text → Text
trim_zeros [] = []
trim_zeros (c ∷ s) =
    let rest = trim_zeros s in if eqb c b'0' && eqb (length rest) 0 then [] else c ∷ rest

unfoldable pub starts_with : ℕ → Text → Bool
starts_with c [] = false
starts_with c (d ∷ s) = eqb c d

-- `padStart(size, '0')`
unfoldable pub pad_start : ℕ → Text → Text
pad_start size s = replicate (size - length s) b'0' ++ s

-- The text before the first letter e, and the text after it. `String` writes a small one.
unfoldable pub split_at : ℕ → Text → Text × Option Text
split_at c [] = ([], none)
split_at c (d ∷ s) =
    let (before, after) = split_at c s in if eqb c d then ([], some s) else (d ∷ before, after)

-- `Number(exponentText)`, of digits behind a sign.
unfoldable pub exponent_of : Text → ℤ
exponent_of [] = pos 0
exponent_of (c ∷ s) =
    if eqb c b'+'
    then pos (decimal_from 0 s)
    else if eqb c b'-'
    then elim (decimal_from 0 s) [ zero ↦ pos 0 | suc n ↦ negsuc n ]
    else pos (decimal_from 0 (c ∷ s))

-- The digits with the point `exponent` places right of where it stood, behind `whole` digits.
unfoldable pub place_point : Text → ℕ → ℤ → Text
place_point flat whole (pos n) =
    if eqb (whole + n) 0
    then b'0' ∷ b'.' ∷ flat
    else if leb (length flat) (whole + n)
    then flat ++ replicate (whole + n - length flat) b'0'
    else take (whole + n) flat ++ b'.' ∷ drop (whole + n) flat
place_point flat whole (negsuc n) =
    if leb whole (suc n)
    then b'0' ∷ b'.' ∷ (replicate (suc n - whole) b'0' ++ flat)
    else if leb (length flat) (whole - suc n)
    then flat ++ replicate (whole - suc n - length flat) b'0'
    else take (whole - suc n) flat ++ b'.' ∷ drop (whole - suc n) flat

abbrev or_nothing : Option Text → Text
or_nothing none = []
or_nothing (some s) = s

-- The branch of `decimalString` for exponent notation.
unfoldable pub expand_exponent : Text → Text → Text
unfolding split_at exponent_of place_point
expand_exponent mantissa exponent =
    let negative = starts_with b'-' mantissa in
    let digits = if negative || starts_with b'+' mantissa then drop 1 mantissa else mantissa in
    let (whole, fraction) = split_at b'.' digits in
    let out = place_point (whole ++ or_nothing fraction) (length whole) (exponent_of exponent) in
    if negative then b'-' ∷ out else out

unfoldable pub decimal_string : Text → Text
unfolding split_at
decimal_string text = elim (split_at b'e' text).1 [
  | none ↦ text
  | some exponent ↦ expand_exponent (split_at b'e' text).0 exponent
]

-- `typeof amount === 'number' ? decimalString(amount) : String(amount).trim()`
unfoldable pub amount_text : AmountInput → Result Text
amount_text (typed text) = ok (trim text)
amount_text (printed text) = ok (decimal_string text)
amount_text not_finite = err bad_amount

abbrev pub or_zeros : Text → Text
or_zeros [] = b'0' ∷ []
or_zeros (c ∷ s) = c ∷ s

-- The two groups as raw units.
unfoldable pub scale_raw : ℕ → Text × Text → Result ℕ
scale_raw decimals (whole, fraction) = do
  fail_if (ltb decimals (length (trim_zeros fraction))) too_precise
  ok (decimal_from 0 (or_zeros whole ++ take decimals (fraction ++ replicate decimals b'0')))

unfoldable pub read_decimal : ℕ → Text → Result ℕ
unfolding scale_raw
read_decimal decimals text = do
  fail_if (starts_with b'-' text) bad_amount
  groups ← or_fail (match_decimal text) bad_amount
  scale_raw decimals groups

unfoldable pub to_raw : AmountInput → ℕ → Result ℕ
unfolding amount_text read_decimal
to_raw amount decimals = do text ← amount_text amount; read_decimal decimals text

-- The text of a raw amount that is not negative.
unfoldable pub format_digits : ℕ → ℕ → Text
format_digits raw decimals =
    let digits = pad_start (decimals + 1) (decimal_text raw) in
    let at = length digits - decimals in
    let fraction = if eqb decimals 0 then [] else trim_zeros (drop at digits) in
    take at digits ++ (if eqb (length fraction) 0 then [] else b'.' ∷ fraction)

unfoldable pub format_raw : ℤ → ℕ → Text
unfolding format_digits
format_raw (pos raw) decimals = format_digits raw decimals
format_raw (negsuc raw) decimals = b'-' ∷ format_digits (suc raw) decimals

-- ===== src/Core/Amount/RoundTrip.antt =====
-- `toRaw` reads what `formatRaw` writes (packages/core/src/amount.ts).
use mathlib.Core.List.{reverse, reverse-cons, reverse-reverse}
use kei_transaction.Common.Tests.{
  ltb, ℕ, zero, suc, ◌+◌, ◌-◌, ◌≤◌, ◌≡◌, refl, sym, ap, ◌∙◌, Bool, true, false, not, ◌&&◌, some,
  List, [], ◌∷◌, ◌++◌, arith, eqb, if◌then◌else◌, Bool-cases, inl, inr,
}
use kei_transaction.Common.Lists.{length, take, drop, all, replicate, length-append}
use kei_transaction.Js.Text.{Text, trim, trim_start, is_space}
use kei_transaction.Js.Number.{pos, is_digit, is_decimal, decimal_from, decimal_text}
use kei_transaction.Js.Number.Digits.{decimal_text-digits, decimal_text-read}
use kei_transaction.Core.Errors.{ok}
use kei_transaction.Core.Amount.Raw.{
  or_zeros, typed, span_digits, strip_plus, fraction_of, match_decimal, trim_zeros, starts_with,
  pad_start, scale_raw, read_decimal, to_raw, format_digits, format_raw,
}

module _ {ℓ} {A : Type ℓ} (p : A → Bool) where
  all-append : (xs ys : List A) → all p xs ≡ true → all p ys ≡ true → all p (xs ++ ys) ≡ true
  all-append [] ys hx hy = hy
  all-append (x ∷ xs) ys hx hy = ground (arith, all-append xs ys)

  all-reverse : (xs : List A) → all p xs ≡ true → all p (reverse xs) ≡ true
  all-reverse [] h = refl
  all-reverse (x ∷ xs) h =
      rw (reverse-cons x xs)
        (all-append (reverse xs) (x ∷ []) (all-reverse xs (ground arith)) (ground arith))

  all-take : (n : ℕ) (xs : List A) → all p xs ≡ true → all p (take n xs) ≡ true
  all-take zero xs h = refl
  all-take (suc n) [] h = refl
  all-take (suc n) (x ∷ xs) h = ground (arith, all-take n xs)

  all-drop : (n : ℕ) (xs : List A) → all p xs ≡ true → all p (drop n xs) ≡ true
  all-drop zero xs h = h
  all-drop (suc n) [] h = refl
  all-drop (suc n) (x ∷ xs) h = all-drop n xs (ground arith)

module _ {ℓ} {A : Type ℓ} where
  take-append-drop : (n : ℕ) (xs : List A) → take n xs ++ drop n xs ≡ xs
  take-append-drop zero xs = refl
  take-append-drop (suc n) [] = refl
  take-append-drop (suc n) (x ∷ xs) = ap (λ ys. x ∷ ys) (take-append-drop n xs)

  length-drop : (n : ℕ) (xs : List A) → length (drop n xs) ≡ length xs - n
  length-drop zero xs = omega arith
  length-drop (suc n) [] = omega arith
  length-drop (suc n) (x ∷ xs) = omega (arith, length-drop n xs)

  length-take : (n : ℕ) (xs : List A) → n ≤ length xs → length (take n xs) ≡ n
  length-take zero xs h = refl
  length-take (suc n) [] h = omega arith
  length-take (suc n) (x ∷ xs) h = omega (arith, length-take n xs)

  length-replicate : (n : ℕ) (a : A) → length (replicate n a) ≡ n
  length-replicate zero a = refl
  length-replicate (suc n) a = omega (arith, length-replicate n a)

-- Trimming leaves a text without spaces as it is.
solid : ℕ → Bool
solid c = not (is_space c)

trim_start-solid : (s : Text) → all solid s ≡ true → trim_start s ≡ s
unfolding trim_start solid
trim_start-solid [] h = refl
trim_start-solid (c ∷ s) h = ground arith

trim-solid : (s : Text) → all solid s ≡ true → trim s ≡ s
unfolding trim
trim-solid s h =
    rw (trim_start-solid s h, trim_start-solid (reverse s) (all-reverse solid s h))
      (reverse-reverse s)

digits-solid : (s : Text) → all is_digit s ≡ true → all solid s ≡ true
unfolding solid is_digit is_space
digits-solid [] h = refl
digits-solid (c ∷ s) h = ground (arith, digits-solid s)

-- The pattern finds the two parts of a text that is written in them.
span_digits-append :
    (s t : Text) → all is_digit s ≡ true → (span_digits t ≡ ([], t)) → span_digits (s ++ t) ≡ (s, t)
unfolding span_digits
span_digits-append [] t h e = e
span_digits-append (c ∷ s) t h e =
    let ih = span_digits-append s t (ground arith) e in
    let digit : is_digit c ≡ true = ground arith in rw (ih, digit) refl

trim_zeros-digits : (s : Text) → all is_digit s ≡ true → all is_digit (trim_zeros s) ≡ true
unfolding trim_zeros
trim_zeros-digits [] h = refl
trim_zeros-digits (c ∷ s) h = ground (arith, trim_zeros-digits s)

trim_zeros-trim_zeros : (s : Text) → trim_zeros (trim_zeros s) ≡ trim_zeros s
unfolding trim_zeros
trim_zeros-trim_zeros [] = refl
trim_zeros-trim_zeros (c ∷ s) = ground (arith, trim_zeros-trim_zeros s)

length-trim_zeros : (s : Text) → length (trim_zeros s) ≤ length s
unfolding trim_zeros
length-trim_zeros [] = omega arith
length-trim_zeros (c ∷ s) = ground (arith, length-trim_zeros s)

length-eq-zero : (s : Text) → eqb (length s) 0 ≡ true → s ≡ []
length-eq-zero [] h = refl
length-eq-zero (c ∷ s) h = ground arith

-- What trimming took away comes back.
take-zeros :
    (s : Text) (m : ℕ) → length s ≤ m → take (length s) (trim_zeros s ++ replicate m b'0') ≡ s
unfolding trim_zeros
take-zeros [] m h = refl
take-zeros (c ∷ s) zero h = absurd (omega arith)
take-zeros (c ∷ s) (suc m) h = elim (Bool-cases (eqb c b'0' && eqb (length (trim_zeros s)) 0)) [
  | inl gone ↦
      let empty : trim_zeros s ≡ [] = length-eq-zero (trim_zeros s) (ground arith) in
      let zero_digit : c ≡ b'0' = ground arith in
      let ih : take (length s) (replicate m b'0') ≡ s =
        ap (λ t. take (length s) (t ++ replicate m b'0')) (sym empty)
        ∙ take-zeros s m (omega arith) in
      rw gone (cc (ih, zero_digit))
  | inr stays ↦ rw stays (ap (λ t. c ∷ t) (take-zeros s (suc m) (omega arith)))
]

decimal_from-zeros : (n : ℕ) (s : Text) → decimal_from 0 (replicate n b'0' ++ s) ≡ decimal_from 0 s
unfolding decimal_from
decimal_from-zeros zero s = refl
decimal_from-zeros (suc n) s = decimal_from-zeros n s

cons_of :
    (s : Text)
    → all is_digit s ≡ true
    → 1 ≤ length s
    → (c : ℕ) × (t : Text) × (s ≡ c ∷ t) × (is_digit c ≡ true)
cons_of [] h pos_length = absurd (omega arith)
cons_of (c ∷ s) h pos_length = (c, s, refl, ground arith)

point : Text → Text
point [] = []
point (c ∷ s) = b'.' ∷ c ∷ s

point-fraction : (s : Text) → all is_digit s ≡ true → fraction_of (point s) ≡ some s
unfolding fraction_of point
point-fraction [] h = refl
point-fraction (c ∷ s) h = ground arith

point-span : (s : Text) → span_digits (point s) ≡ ([], point s)
unfolding span_digits is_digit point
point-span [] = refl
point-span (c ∷ s) = refl

point-solid : (s : Text) → all is_digit s ≡ true → all solid (point s) ≡ true
unfolding point solid is_space
point-solid [] h = refl
point-solid (c ∷ s) h = digits-solid (c ∷ s) h

point-if : (s : Text) → point s ≡ (if eqb (length s) 0 then [] else b'.' ∷ s)
unfolding point
point-if [] = refl
point-if (c ∷ s) = ground arith

no_decimals :
    (s : Text) (d : ℕ) → length s ≡ d → (if eqb d 0 then [] else trim_zeros s) ≡ trim_zeros s
unfolding trim_zeros
no_decimals [] d h = ground arith
no_decimals (c ∷ s) d h = ground arith

strip_plus-digit : (c : ℕ) (s : Text) → is_digit c ≡ true → strip_plus (c ∷ s) ≡ c ∷ s
unfolding strip_plus is_digit
strip_plus-digit c s h = ground arith

-- The text that `formatRaw` starts from.
padded : ℕ → ℕ → Text
padded raw decimals = pad_start (decimals + 1) (decimal_text raw)

replicate-digits : (n : ℕ) → all is_digit (replicate n b'0') ≡ true
unfolding is_digit
replicate-digits zero = refl
replicate-digits (suc n) = replicate-digits n

is_decimal-digits : (s : Text) → is_decimal s ≡ true → all is_digit s ≡ true
unfolding is_decimal
is_decimal-digits [] h = refl
is_decimal-digits (c ∷ s) h = h

module _ (raw decimals : ℕ) where
  padded-digits : all is_digit (padded raw decimals) ≡ true
  unfolding padded pad_start
  padded-digits =
      all-append is_digit (replicate (decimals + 1 - length (decimal_text raw)) b'0')
        (decimal_text raw) (replicate-digits _)
        (is_decimal-digits (decimal_text raw) (decimal_text-digits raw))

  padded-read : decimal_from 0 (padded raw decimals) ≡ raw
  unfolding padded pad_start
  padded-read = decimal_from-zeros _ (decimal_text raw) ∙ decimal_text-read raw

  length-padded : decimals + 1 ≤ length (padded raw decimals)
  unfolding padded pad_start
  length-padded = omega (
    arith,
    length-append (replicate (decimals + 1 - length (decimal_text raw)) b'0') (decimal_text raw),
    length-replicate {A = ℕ} (decimals + 1 - length (decimal_text raw)) b'0',
  )

  split : ℕ
  split = length (padded raw decimals) - decimals

  whole : Text
  whole = take split (padded raw decimals)

  fraction : Text
  fraction = drop split (padded raw decimals)

  length-fraction : length fraction ≡ decimals
  unfolding fraction split
  length-fraction = omega (arith, length-drop split (padded raw decimals), length-padded)

  length-whole : length whole ≡ split
  unfolding whole split
  length-whole = length-take split (padded raw decimals) (omega arith)

  split-pos : 1 ≤ split
  unfolding split
  split-pos = omega (arith, length-padded)

  joined : whole ++ fraction ≡ padded raw decimals
  unfolding whole fraction
  joined = take-append-drop split (padded raw decimals)

  whole-digits : all is_digit whole ≡ true
  unfolding whole
  whole-digits = all-take is_digit split (padded raw decimals) padded-digits

  fraction-digits : all is_digit fraction ≡ true
  unfolding fraction
  fraction-digits = all-drop is_digit split (padded raw decimals) padded-digits

  whole-cons : (c : ℕ) × (s : Text) × (whole ≡ c ∷ s) × (is_digit c ≡ true)
  whole-cons = cons_of whole whole-digits (omega (arith, length-whole, split-pos))

  -- The groups of the printed text are the two parts, without the zeros at the end.
  scale_raw-parts : scale_raw decimals (whole, trim_zeros fraction) ≡ ok raw
  unfolding scale_raw
  scale_raw-parts =
      let (c, s, is, _) = whole-cons in
      let fits : ltb decimals (length (trim_zeros (trim_zeros fraction))) ≡ false =
        ground
          (arith, trim_zeros-trim_zeros fraction, length-trim_zeros fraction, length-fraction) in
      let same : or_zeros whole ≡ whole = rw is refl in
      let back : take decimals (trim_zeros fraction ++ replicate decimals b'0') ≡ fraction =
        ap (λ n. take n (trim_zeros fraction ++ replicate decimals b'0')) (sym length-fraction)
        ∙ take-zeros fraction decimals (omega (arith, length-fraction)) in
      rw (fits, same, back, joined, padded-read) refl

  -- The printed text, in its parts.
  format_digits-parts : format_digits raw decimals ≡ whole ++ point (trim_zeros fraction)
  unfolding format_digits whole fraction split padded point
  format_digits-parts =
      rw (no_decimals fraction decimals length-fraction, point-if (trim_zeros fraction)) refl

  match_decimal-parts :
      match_decimal (whole ++ point (trim_zeros fraction)) ≡ some (whole, trim_zeros fraction)
  unfolding match_decimal
  match_decimal-parts =
      let f = trim_zeros fraction in
      let digits = trim_zeros-digits fraction fraction-digits in
      let (c, s, is, digit) = whole-cons in
      let spans = span_digits-append whole (point f) whole-digits (point-span f) in
      let stripped : strip_plus (whole ++ point f) ≡ whole ++ point f =
        rw is (strip_plus-digit c (s ++ point f) digit) in
      let some_digit : eqb (length whole) 0 ≡ false = rw is (ground arith) in
      ground (arith, stripped, spans, point-fraction f digits, some_digit)

  format-solid : all solid (whole ++ point (trim_zeros fraction)) ≡ true
  format-solid =
      all-append solid whole (point (trim_zeros fraction)) (digits-solid whole whole-digits)
        (point-solid (trim_zeros fraction) (trim_zeros-digits fraction fraction-digits))

  not_negative : starts_with b'-' (whole ++ point (trim_zeros fraction)) ≡ false
  unfolding starts_with is_digit
  not_negative = let (c, s, is, digit) = whole-cons in rw is (ground arith)

  read_decimal-format : read_decimal decimals (format_digits raw decimals) ≡ ok raw
  unfolding read_decimal
  read_decimal-format = rw (format_digits-parts, not_negative, match_decimal-parts) scale_raw-parts

  -- The text of any amount reads back as that amount, at the same number of decimals.
  pub to_raw-format_raw : to_raw (typed (format_raw (pos raw) decimals)) decimals ≡ ok raw
  unfolding to_raw format_raw
  to_raw-format_raw =
      let solid_text : trim (format_digits raw decimals) ≡ format_digits raw decimals =
        trim-solid (format_digits raw decimals) (rw format_digits-parts format-solid) in
      rw solid_text read_decimal-format

-- ===== src/Js/Text.antt =====
-- A JavaScript string is the list of its UTF-16 code units. Every text here that is compared or
-- cased is an identifier, an address, hexadecimal or a symbol: `upper` maps the letters a to z.
use Prim.Native.Char.{code}
use Prim.Native.String.{String}
use mathlib.Core.List.{reverse}
use kei_transaction.Common.Tests.{
  ℕ, ◌+◌, ◌-◌, ◌*◌, ◌/◌, ◌%◌, ◌≡◌, refl, Bool, ◌&&◌, ◌||◌, List, [], ◌∷◌, ◌++◌, map, arith, leb,
  ltb, eqb, if◌then◌else◌,
}
use kei_transaction.Common.Eq.{text_eq}

abbrev pub Text : Type 0
Text = List ℕ

-- A literal of ASCII characters.
abbrev pub text : String → Text
text String.[] = []
text (String.◌∷◌ c s) = code c ∷ text s

unfoldable pub upper_unit : ℕ → ℕ
upper_unit c = if leb b'a' c && leb c b'z' then c - 32 else c

-- `s.toUpperCase()`
unfoldable pub upper : Text → Text
unfolding upper_unit
upper s = map upper_unit s

upper_unit_idem : (c : ℕ) → upper_unit (upper_unit c) ≡ upper_unit c
unfolding upper_unit
upper_unit_idem c = ground arith

pub upper-upper : (s : Text) → upper (upper s) ≡ upper s
unfolding upper
upper-upper [] = refl
upper-upper (c ∷ s) = cc (upper_unit_idem c, upper-upper s)

-- The code units that `trim` takes away.
unfoldable pub is_space : ℕ → Bool
is_space c =
    (leb 9 c && leb c 13)
    || eqb c 32
    || eqb c 160
    || eqb c 0x1680
    || (leb 0x2000 c && leb c 0x200A)
    || eqb c 0x2028
    || eqb c 0x2029
    || eqb c 0x202F
    || eqb c 0x205F
    || eqb c 0x3000
    || eqb c 0xFEFF

unfoldable pub trim_start : Text → Text
unfolding is_space
trim_start [] = []
trim_start (c ∷ s) = if is_space c then trim_start s else c ∷ s

-- `s.trim()`
unfoldable pub trim : Text → Text
unfolding trim_start
trim s = reverse (trim_start (reverse (trim_start s)))

abbrev pub is_high_surrogate : ℕ → Bool
is_high_surrogate c = leb 0xD800 c && leb c 0xDBFF

abbrev pub is_low_surrogate : ℕ → Bool
is_low_surrogate c = leb 0xDC00 c && leb c 0xDFFF

-- The bytes of a code point that is one code unit; of a surrogate alone, those of U+FFFD.
unfoldable pub utf8_unit : ℕ → List ℕ
utf8_unit c =
    if ltb c 0x80
    then c ∷ []
    else if ltb c 0x800
    then (0xC0 + c / 64) ∷ (0x80 + c % 64) ∷ []
    else if is_high_surrogate c || is_low_surrogate c
    then 0xEF ∷ 0xBF ∷ 0xBD ∷ []
    else (0xE0 + c / 4096) ∷ (0x80 + c / 64 % 64) ∷ (0x80 + c % 64) ∷ []

-- The bytes of a code point above U+FFFF.
unfoldable pub utf8_point : ℕ → List ℕ
utf8_point p =
    (0xF0 + p / 262144) ∷ (0x80 + p / 4096 % 64) ∷ (0x80 + p / 64 % 64) ∷ (0x80 + p % 64) ∷ []

-- `new TextEncoder().encode(s)`
unfoldable pub utf8 : Text → List ℕ
unfolding utf8_unit utf8_point
utf8 [] = []
utf8 (c ∷ []) = utf8_unit c
utf8 (c ∷ d ∷ s) =
    let after_pair = utf8 s in
    let after_unit = utf8 (d ∷ s) in
    if is_high_surrogate c && is_low_surrogate d
    then utf8_point (0x10000 + (c - 0xD800) * 1024 + (d - 0xDC00)) ++ after_pair
    else utf8_unit c ++ after_unit

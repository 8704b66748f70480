-- ===== src/Economy/Drops.antt =====
-- packages/economy/src/drops.ts. Weights are below 10 ^ 21, so that `String` writes their digits. A chance is its two weights; `odds`, which only
-- shows them, is left out.
pub mod Roll
pub mod Binding
use kei_transaction.Common.Tests.{
  ℕ, suc, ◌+◌, ◌-◌, ◌*◌, ◌/◌, ◌^◌, Bool, true, false, not, ◌&&◌, ◌||◌, Option, none, some, List, [],
  ◌∷◌, ◌++◌, eqb, leb, ltb, if◌then◌else◌,
}
use kei_transaction.Common.Eq.{◌==◌, text_eq}
use kei_transaction.Common.Lists.{length, all}
use kei_transaction.Dict.{Dict, contains, insert}
use kei_transaction.Js.Text.{Text, text, trim, upper, utf8}
use kei_transaction.Js.Number.{
  Number, whole, negative, fraction, not_finite, decimal_from, decimal_text, is_decimal,
  round_double,
}
use kei_transaction.Core.Errors.{
  Result, ok, err, fail_if, or_fail, bad_drop_table, empty_drop_table, no_weight,
  duplicate_drop_table, bad_asset, bad_amount, bad_weight, bad_digest, bad_nonce, bad_award,
  wrong_table, table_changed, unbound_drop, not_in_drop, bad_random, ◌>>=◌, ◌>>◌,
}
use kei_transaction.Core.Crypto.{Crypto}
use kei_transaction.Core.Hex.{is_hex, pairs_to_bytes, bytes_to_hex}
use kei_transaction.Core.Address.{public_key_from_address}
use kei_transaction.Core.Merkle.{leaf_hash, salt_leaf, verify_proof}
use kei_transaction.Core.Amount.Raw.{
  AmountInput, typed, printed, not_finite, starts_with, match_decimal, trim_zeros, or_zeros,
}
use kei_transaction.Claims.Tree.{BuiltCommit, ClaimBundle}
use kei_transaction.Economy.Recipe.{
  AssetRef, named, fields, names_an_asset, rounds_to_zero, one, name_or,
}

abbrev pub table_domain : Text
table_domain = text "kei-drop-table-v1"

abbrev pub salt_domain : Text
salt_domain = text "kei-drop-salt-v1"

pub record DropSpec : Type 0 where
  pub asset : AssetRef
  pub amount : Option AmountInput
  pub weight : Option Number

pub record DropTableSpec : Type 0 where
  pub id : Text
  pub name : Option Text
  pub issuer : Option Text
  pub drops : List DropSpec
  pub nothing : Option Number

pub record Drop : Type 0 where
  pub asset : AssetRef
  pub amount : Text
  pub weight : ℕ

pub record DropTable : Type 0 where
  pub id : Text
  pub name : Text
  pub issuer : Option Text
  pub drops : List Drop
  pub nothing : ℕ
  pub digest : Text

unfoldable pub weight_of : Option Number → ℕ → Result ℕ
weight_of none fallback = ok fallback
weight_of (some (whole n)) fallback = ok n
weight_of (some (negative n)) fallback = err bad_weight
weight_of (some (fraction _)) fallback = err bad_weight
weight_of (some not_finite) fallback = err bad_weight

unfoldable pub includes : ℕ → Text → Bool
includes c s = not (all (λ d. not (eqb c d)) s)

-- `formatNumber`; the text of a number that is not above zero has a sign or is "0".
unfoldable pub format_number : Text → Result Text
unfolding includes
format_number s = do
  fail_if (starts_with b'-' s || s == text "0") bad_amount
  fail_if (includes b'e' s || includes b'E' s) bad_amount
  ok s

unfoldable pub amount_text_of : AmountInput → Result Text
unfolding format_number
amount_text_of (typed s) = ok (trim s)
amount_text_of (printed s) = format_number s
amount_text_of not_finite = err bad_amount

-- `replace(/^0+(?=\d)/, '')` on digits.
unfoldable pub strip_zeros : Text → Text
strip_zeros [] = []
strip_zeros (c ∷ []) = c ∷ []
strip_zeros (c ∷ d ∷ s) = if eqb c b'0' then strip_zeros (d ∷ s) else c ∷ d ∷ s

-- Joined by a point, if there is a fraction.
abbrev pub pointed : Text → Text → Text
pointed digits [] = digits
pointed digits (c ∷ s) = digits ++ b'.' ∷ c ∷ s

unfoldable pub canonical_amount : AmountInput → Result Text
unfolding amount_text_of strip_zeros
canonical_amount amount = do
  given ← amount_text_of amount
  groups ← or_fail (match_decimal given) bad_amount
  fail_if (rounds_to_zero groups) bad_amount
  ok (pointed (or_zeros (strip_zeros (groups.0))) (trim_zeros (groups.1)))

abbrev pub drop_amount : Option AmountInput → AmountInput
drop_amount none = one
drop_amount (some amount) = amount

unfoldable pub normalize_drop : DropSpec → Result Drop
unfolding canonical_amount weight_of
normalize_drop drop = do
  fail_if (not (names_an_asset drop.asset)) bad_asset
  amount ← canonical_amount (drop_amount drop.amount)
  weight ← weight_of drop.weight 1
  ok (record { asset = drop.asset; amount = amount; weight = weight })

unfoldable pub normalize_drops : List DropSpec → Result (List Drop)
unfolding normalize_drop
normalize_drops [] = ok []
normalize_drops (drop ∷ drops) = do
  first ← normalize_drop drop
  rest ← normalize_drops drops
  ok (first ∷ rest)

unfoldable pub sum_weights : List Drop → ℕ
sum_weights [] = 0
sum_weights (drop ∷ drops) = drop.weight + sum_weights drops

abbrev tab : Text
tab = 9 ∷ []

abbrev or_empty : Option Text → Text
or_empty none = []
or_empty (some s) = s

abbrev symbol_key : Option Text → Option Text → Text
symbol_key symbol issuer =
    text "symbol" ++ tab ++ upper (trim (or_empty symbol)) ++ tab ++ trim (or_empty issuer)

unfoldable pub ref_key : AssetRef → Text
ref_key (named s) = text "ref" ++ tab ++ upper (trim s)
ref_key (fields none symbol issuer) = symbol_key symbol issuer
ref_key (fields (some id) symbol issuer) =
    if eqb (length id) 0 then symbol_key symbol issuer else text "id" ++ tab ++ upper (trim id)

-- The rows, each behind a newline.
unfoldable pub drop_lines : List Drop → Text
unfolding ref_key
drop_lines [] = []
drop_lines (drop ∷ drops) =
    10
    ∷ (ref_key drop.asset
        ++ tab
        ++ drop.amount
        ++ tab
        ++ decimal_text drop.weight
        ++ drop_lines drops)

-- `rollDropTable` from the target down.
unfoldable pub pick : List Drop → ℕ → Option Drop
pick [] target = none
pick (drop ∷ drops) target =
    if ltb target drop.weight then some drop else pick drops (target - drop.weight)

-- `Math.floor(value * total)`, where `value` is a word of 32 bits over 2 ^ 32: the product is rounded
-- to a `number`, by which a power of two makes no difference.
unfoldable pub target_of : ℕ → ℕ → ℕ
target_of word total = round_double (word * total) / 2 ^ 32

-- The random source is `uniform`, given by the word that it divides by 2 ^ 32. The sum of the weights
-- is taken to be below 2 ^ 53, where it is exact.
unfoldable pub roll_drop_table : DropTable → ℕ → Result (Option Drop)
unfolding pick sum_weights target_of
roll_drop_table table word = do
  fail_if (leb (2 ^ 32) word) bad_random
  ok (pick table.drops (target_of word (sum_weights table.drops + table.nothing)))

pub record DropAward : Type 0 where
  pub root : Text
  pub asset : Text
  pub amount : Text
  pub proof : List Text
  pub table : Text
  pub digest : Text
  pub nonce : Text
  pub salt_proof : List Text

-- The award that a published commit gives the player of a bundle (`publishDrops` of batch.ts).
unfoldable pub award_of : DropTable → Text → BuiltCommit → ClaimBundle → DropAward
award_of table nonce built bundle = record {
  root = bundle.root;
  asset = bundle.asset;
  amount = bundle.amount;
  proof = bundle.proof;
  table = table.id;
  digest = table.digest;
  nonce = nonce;
  salt_proof = built.salt_proof;
}

unfoldable pub assert_award_shape : DropAward → Result (Unit {0})
assert_award_shape award = do
  fail_if (not (is_hex award.root (some 32))) bad_award
  fail_if (not (is_hex award.asset (some 32))) bad_award
  fail_if (not (is_decimal award.amount)) bad_award
  ok tt

module _ ⦃c : Crypto⦄ where
  unfoldable pub digest_of : Text → List Drop → ℕ → Text
  unfolding drop_lines
  digest_of id drops nothing = upper (
      bytes_to_hex (
        c.blake2b
          (utf8 (table_domain ++ 10 ∷ (id ++ 10 ∷ (decimal_text nothing ++ drop_lines drops)))) 32))

  unfoldable pub define_drop_table : DropTableSpec → Result DropTable
  unfolding normalize_drops weight_of sum_weights digest_of
  define_drop_table spec =
      let id = trim spec.id in
      do
        fail_if (eqb (length id) 0) bad_drop_table
        fail_if (eqb (length spec.drops) 0) empty_drop_table
        drops ← normalize_drops spec.drops
        nothing ← weight_of spec.nothing 0
        fail_if (eqb (sum_weights drops + nothing) 0) no_weight
        ok (record {
          id = id;
          name = name_or spec.name id;
          issuer = spec.issuer;
          drops = drops;
          nothing = nothing;
          digest = digest_of id drops nothing;
        })

  unfoldable pub define_drop_tables :
      List DropTableSpec → Dict Text DropTable → Result (Dict Text DropTable)
  unfolding define_drop_table
  define_drop_tables [] out = ok out
  define_drop_tables (spec ∷ specs) out = do
    table ← define_drop_table spec
    fail_if (contains table.id out) duplicate_drop_table
    define_drop_tables specs (insert table.id table out)

  -- What `isDropTable` asks beyond the shape that a table has here. Whether the value is frozen is given.
  unfoldable pub is_drop_table : Bool → DropTable → Bool
  unfolding digest_of
  is_drop_table frozen table =
      frozen
      && not (eqb (length table.id) 0)
      && all (λ (drop : Drop). names_an_asset drop.asset) table.drops
      && digest_of table.id table.drops table.nothing == table.digest

  unfoldable pub drop_salt : Text → Text → Result Text
  drop_salt digest nonce = do
    fail_if (not (is_hex digest (some 32))) bad_digest
    fail_if (not (is_hex nonce (some 32))) bad_nonce
    ok (
        upper (
          bytes_to_hex
            (c.blake2b (utf8 salt_domain ++ pairs_to_bytes digest ++ pairs_to_bytes nonce) 32)))

  unfoldable pub check_drop_binding : DropAward → DropTable → Text → Result (Unit {0})
  unfolding assert_award_shape drop_salt
  check_drop_binding award table account = do
    assert_award_shape award
    fail_if (not (award.table == table.id)) wrong_table
    fail_if (not (award.digest == table.digest)) table_changed
    salt ← drop_salt award.digest award.nonce
    bound ← salt_leaf salt
    fail_if (not (verify_proof bound award.salt_proof award.root)) unbound_drop
    key ← public_key_from_address account
    leaf ← leaf_hash key award.asset (decimal_from 0 award.amount)
    fail_if (not (verify_proof leaf award.proof award.root)) not_in_drop
    ok tt

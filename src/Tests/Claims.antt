-- ===== src/Tests/Claims.antt =====
-- The claims and the drops of small batches.
use kei_transaction.Common.Tests.{◌^◌, ◌<◌, ◌≡◌, refl, true, none, some, List, [], ◌∷◌, arith}
use kei_transaction.Common.Eq.{list_beq, text_eq}
use kei_transaction.Core.Errors.{Result, ok, err}
use kei_transaction.Core.Crypto.{DigestBytes}
use kei_transaction.Js.Number.{pos}
use kei_transaction.Tests.{toy, toy_key, toy_address, encode}
use kei_transaction.Core.Amount.RoundTrip.{to_raw-format_raw}
use kei_transaction.Claims.Tree.Leaves.{LeafOf}
use kei_transaction.Claims.Tree.Bundles.{proof_for-verify_proof, salt_proof-verify_proof}
use kei_transaction.Claims.Tree.Totals.{build_commit-totals, owed, owed_in_all}
use kei_transaction.Economy.Drops.Roll.{roll_drop_table-row, roll_drop_table-nothing}
use kei_transaction.Economy.Drops.Binding.{check_drop_binding-award_of}
use kei_transaction.Dict.{lookup, insert, erase, mem, add, remove}
use kei_transaction.Js.Text.{
  Text, text, upper_unit, upper, is_space, trim_start, trim, utf8_unit, utf8_point, utf8,
}
use kei_transaction.Js.Number.{is_digit, decimal_from, is_decimal, digits_before, decimal_text}
use kei_transaction.Core.Hex.{
  is_hex_digit, is_hex, hex_value, pairs_to_bytes, hex_to_bytes, hex_digit, bytes_to_digits,
  bytes_to_hex, bytes_below, bigint_to_bytes,
}
use kei_transaction.Core.Address.{
  index_of, decode_base32, bigint_to_fixed_bytes, address_from_public_key, checksum_of,
  public_key_from_address, assert_address, null_representative,
}
use kei_transaction.Core.Blocks.{
  zero_hash, tier_for_subtype, tier_for_op, tier_for, is_symbol_start, is_symbol, normalize_symbol,
}
use kei_transaction.Core.Merkle.{
  text_le, derive_asset_id, leaf_hash, salt_leaf, combine_hashes, fold_proof, verify_proof,
}
use kei_transaction.Core.Amount.Raw.{
  typed, span_digits, strip_plus, fraction_of, match_decimal, trim_zeros, starts_with, pad_start,
  split_at, exponent_of, place_point, expand_exponent, decimal_string, amount_text, scale_raw,
  read_decimal, to_raw, format_digits, format_raw,
}
use kei_transaction.Claims.Tree.{
  amount_in, CommitEntry, BuiltCommit, ClaimBundle, add_amount, sorted_insert, sorted, sum_amounts,
  index_in, entry_at, entry_or, sibling, path_to, root_of, pair_up, layers_from, merge_entries,
  recipient_leaves, build_commit, proof_for, amount_for,
}
use kei_transaction.Economy.Recipe.{
  named, names_an_asset, rounds_to_zero, positive_amount, amount_of, normalize_stack, stacks,
  strategy_for, sink_policy, sink_for, define_recipe, define_recipes, is_recipe,
}
use kei_transaction.Economy.Drops.{
  DropTable, Drop, weight_of, includes, format_number, amount_text_of, strip_zeros,
  canonical_amount, normalize_drop, normalize_drops, sum_weights, ref_key, drop_lines, pick,
  roll_drop_table, award_of, assert_award_shape, digest_of, define_drop_table, define_drop_tables,
  is_drop_table, drop_salt, check_drop_binding,
}

abbrev from_ok : {A : Type 0} → A → Result A → A
from_ok default (ok a) = a
from_ok default (err _) = default

toy-DigestBytes : DigestBytes ⦃c = toy⦄
toy-DigestBytes message = (refl, ground arith)

abbrev sword : Text
sword = toy_key 9

abbrev gold_row : Drop
gold_row = record { asset = named sword; amount = text "5"; weight = 3 }

abbrev table : DropTable
table = record {
  id = text "dragon";
  name = text "dragon";
  issuer = none;
  drops = gold_row ∷ [];
  nothing = 1;
  digest = toy_key 8;
}

abbrev nonce : Text
nonce = toy_key 7

abbrev salt : Text
unfolding list_beq lookup insert erase mem add remove upper_unit upper is_space trim_start trim
    utf8_unit utf8_point utf8 is_digit decimal_from is_decimal digits_before decimal_text
    is_hex_digit is_hex hex_value pairs_to_bytes hex_to_bytes hex_digit bytes_to_digits bytes_to_hex
    bytes_below bigint_to_bytes index_of decode_base32 bigint_to_fixed_bytes address_from_public_key
    checksum_of public_key_from_address assert_address null_representative zero_hash
    tier_for_subtype tier_for_op tier_for is_symbol_start is_symbol normalize_symbol text_le
    derive_asset_id leaf_hash salt_leaf combine_hashes fold_proof verify_proof span_digits
    strip_plus fraction_of match_decimal trim_zeros starts_with pad_start split_at exponent_of
    place_point expand_exponent decimal_string amount_text scale_raw read_decimal to_raw
    format_digits format_raw add_amount sorted_insert sorted sum_amounts index_in entry_at entry_or
    sibling path_to root_of pair_up layers_from merge_entries recipient_leaves build_commit
    proof_for amount_for names_an_asset rounds_to_zero positive_amount amount_of normalize_stack
    stacks strategy_for sink_policy sink_for define_recipe define_recipes is_recipe weight_of
    includes format_number amount_text_of strip_zeros canonical_amount normalize_drop
    normalize_drops sum_weights ref_key drop_lines pick roll_drop_table award_of assert_award_shape
    digest_of define_drop_table define_drop_tables is_drop_table drop_salt check_drop_binding
salt = from_ok [] (drop_salt ⦃c = toy⦄ (toy_key 8) nonce)

salt_ok : drop_salt ⦃c = toy⦄ table.digest nonce ≡ ok salt
unfolding list_beq lookup insert erase mem add remove upper_unit upper is_space trim_start trim
    utf8_unit utf8_point utf8 is_digit decimal_from is_decimal digits_before decimal_text
    is_hex_digit is_hex hex_value pairs_to_bytes hex_to_bytes hex_digit bytes_to_digits bytes_to_hex
    bytes_below bigint_to_bytes index_of decode_base32 bigint_to_fixed_bytes address_from_public_key
    checksum_of public_key_from_address assert_address null_representative zero_hash
    tier_for_subtype tier_for_op tier_for is_symbol_start is_symbol normalize_symbol text_le
    derive_asset_id leaf_hash salt_leaf combine_hashes fold_proof verify_proof span_digits
    strip_plus fraction_of match_decimal trim_zeros starts_with pad_start split_at exponent_of
    place_point expand_exponent decimal_string amount_text scale_raw read_decimal to_raw
    format_digits format_raw add_amount sorted_insert sorted sum_amounts index_in entry_at entry_or
    sibling path_to root_of pair_up layers_from merge_entries recipient_leaves build_commit
    proof_for amount_for names_an_asset rounds_to_zero positive_amount amount_of normalize_stack
    stacks strategy_for sink_policy sink_for define_recipe define_recipes is_recipe weight_of
    includes format_number amount_text_of strip_zeros canonical_amount normalize_drop
    normalize_drops sum_weights ref_key drop_lines pick roll_drop_table award_of assert_award_shape
    digest_of define_drop_table define_drop_tables is_drop_table drop_salt check_drop_binding
salt_ok = refl

abbrev entries : List CommitEntry
entries =
    record { to = toy_address 1; amount = typed (text "3") }
    ∷ record { to = toy_address 2; amount = typed (text "5") }
    ∷ record { to = toy_address 1; amount = typed (text "4") }
    ∷ []

abbrev nobody : BuiltCommit
nobody = record {
  root = [];
  asset = [];
  count = 0;
  total = [];
  recipients = [];
  salt = [];
  salt_proof = [];
  merged = [];
  layers = [];
}

abbrev built : BuiltCommit
unfolding list_beq lookup insert erase mem add remove upper_unit upper is_space trim_start trim
    utf8_unit utf8_point utf8 is_digit decimal_from is_decimal digits_before decimal_text
    is_hex_digit is_hex hex_value pairs_to_bytes hex_to_bytes hex_digit bytes_to_digits bytes_to_hex
    bytes_below bigint_to_bytes index_of decode_base32 bigint_to_fixed_bytes address_from_public_key
    checksum_of public_key_from_address assert_address null_representative zero_hash
    tier_for_subtype tier_for_op tier_for is_symbol_start is_symbol normalize_symbol text_le
    derive_asset_id leaf_hash salt_leaf combine_hashes fold_proof verify_proof span_digits
    strip_plus fraction_of match_decimal trim_zeros starts_with pad_start split_at exponent_of
    place_point expand_exponent decimal_string amount_text scale_raw read_decimal to_raw
    format_digits format_raw add_amount sorted_insert sorted sum_amounts index_in entry_at entry_or
    sibling path_to root_of pair_up layers_from merge_entries recipient_leaves build_commit
    proof_for amount_for
built = from_ok nobody (build_commit ⦃c = toy⦄ sword 0 entries salt)

built_ok : build_commit ⦃c = toy⦄ sword 0 entries salt ≡ ok built
unfolding list_beq lookup insert erase mem add remove upper_unit upper is_space trim_start trim
    utf8_unit utf8_point utf8 is_digit decimal_from is_decimal digits_before decimal_text
    is_hex_digit is_hex hex_value pairs_to_bytes hex_to_bytes hex_digit bytes_to_digits bytes_to_hex
    bytes_below bigint_to_bytes index_of decode_base32 bigint_to_fixed_bytes address_from_public_key
    checksum_of public_key_from_address assert_address null_representative zero_hash
    tier_for_subtype tier_for_op tier_for is_symbol_start is_symbol normalize_symbol text_le
    derive_asset_id leaf_hash salt_leaf combine_hashes fold_proof verify_proof span_digits
    strip_plus fraction_of match_decimal trim_zeros starts_with pad_start split_at exponent_of
    place_point expand_exponent decimal_string amount_text scale_raw read_decimal to_raw
    format_digits format_raw add_amount sorted_insert sorted sum_amounts index_in entry_at entry_or
    sibling path_to root_of pair_up layers_from merge_entries recipient_leaves build_commit
    proof_for amount_for names_an_asset rounds_to_zero positive_amount amount_of normalize_stack
    stacks strategy_for sink_policy sink_for define_recipe define_recipes is_recipe weight_of
    includes format_number amount_text_of strip_zeros canonical_amount normalize_drop
    normalize_drops sum_weights ref_key drop_lines pick roll_drop_table award_of assert_award_shape
    digest_of define_drop_table define_drop_tables is_drop_table drop_salt check_drop_binding built
    salt encode
built_ok = refl

built_count : built.count < 2 ^ 48
unfolding list_beq lookup insert erase mem add remove upper_unit upper is_space trim_start trim
    utf8_unit utf8_point utf8 is_digit decimal_from is_decimal digits_before decimal_text
    is_hex_digit is_hex hex_value pairs_to_bytes hex_to_bytes hex_digit bytes_to_digits bytes_to_hex
    bytes_below bigint_to_bytes index_of decode_base32 bigint_to_fixed_bytes address_from_public_key
    checksum_of public_key_from_address assert_address null_representative zero_hash
    tier_for_subtype tier_for_op tier_for is_symbol_start is_symbol normalize_symbol text_le
    derive_asset_id leaf_hash salt_leaf combine_hashes fold_proof verify_proof span_digits
    strip_plus fraction_of match_decimal trim_zeros starts_with pad_start split_at exponent_of
    place_point expand_exponent decimal_string amount_text scale_raw read_decimal to_raw
    format_digits format_raw add_amount sorted_insert sorted sum_amounts index_in entry_at entry_or
    sibling path_to root_of pair_up layers_from merge_entries recipient_leaves build_commit
    proof_for amount_for names_an_asset rounds_to_zero positive_amount amount_of normalize_stack
    stacks strategy_for sink_policy sink_for define_recipe define_recipes is_recipe weight_of
    includes format_number amount_text_of strip_zeros canonical_amount normalize_drop
    normalize_drops sum_weights ref_key drop_lines pick roll_drop_table award_of assert_award_shape
    digest_of define_drop_table define_drop_tables is_drop_table drop_salt check_drop_binding built
    salt encode
built_count = omega arith

abbrev bundle : ClaimBundle
unfolding list_beq lookup insert erase mem add remove upper_unit upper is_space trim_start trim
    utf8_unit utf8_point utf8 is_digit decimal_from is_decimal digits_before decimal_text
    is_hex_digit is_hex hex_value pairs_to_bytes hex_to_bytes hex_digit bytes_to_digits bytes_to_hex
    bytes_below bigint_to_bytes index_of decode_base32 bigint_to_fixed_bytes address_from_public_key
    checksum_of public_key_from_address assert_address null_representative zero_hash
    tier_for_subtype tier_for_op tier_for is_symbol_start is_symbol normalize_symbol text_le
    derive_asset_id leaf_hash salt_leaf combine_hashes fold_proof verify_proof span_digits
    strip_plus fraction_of match_decimal trim_zeros starts_with pad_start split_at exponent_of
    place_point expand_exponent decimal_string amount_text scale_raw read_decimal to_raw
    format_digits format_raw add_amount sorted_insert sorted sum_amounts index_in entry_at entry_or
    sibling path_to root_of pair_up layers_from merge_entries recipient_leaves build_commit
    proof_for amount_for
bundle =
    from_ok (record { root = []; asset = []; amount = []; proof = [] })
      (proof_for built (toy_address 2))

bundle_ok : proof_for built (toy_address 2) ≡ ok bundle
unfolding list_beq lookup insert erase mem add remove upper_unit upper is_space trim_start trim
    utf8_unit utf8_point utf8 is_digit decimal_from is_decimal digits_before decimal_text
    is_hex_digit is_hex hex_value pairs_to_bytes hex_to_bytes hex_digit bytes_to_digits bytes_to_hex
    bytes_below bigint_to_bytes index_of decode_base32 bigint_to_fixed_bytes address_from_public_key
    checksum_of public_key_from_address assert_address null_representative zero_hash
    tier_for_subtype tier_for_op tier_for is_symbol_start is_symbol normalize_symbol text_le
    derive_asset_id leaf_hash salt_leaf combine_hashes fold_proof verify_proof span_digits
    strip_plus fraction_of match_decimal trim_zeros starts_with pad_start split_at exponent_of
    place_point expand_exponent decimal_string amount_text scale_raw read_decimal to_raw
    format_digits format_raw add_amount sorted_insert sorted sum_amounts index_in entry_at entry_or
    sibling path_to root_of pair_up layers_from merge_entries recipient_leaves build_commit
    proof_for amount_for names_an_asset rounds_to_zero positive_amount amount_of normalize_stack
    stacks strategy_for sink_policy sink_for define_recipe define_recipes is_recipe weight_of
    includes format_number amount_text_of strip_zeros canonical_amount normalize_drop
    normalize_drops sum_weights ref_key drop_lines pick roll_drop_table award_of assert_award_shape
    digest_of define_drop_table define_drop_tables is_drop_table drop_salt check_drop_binding bundle
    built salt encode
bundle_ok = refl

abbrev bound : Text
unfolding list_beq lookup insert erase mem add remove upper_unit upper is_space trim_start trim
    utf8_unit utf8_point utf8 is_digit decimal_from is_decimal digits_before decimal_text
    is_hex_digit is_hex hex_value pairs_to_bytes hex_to_bytes hex_digit bytes_to_digits bytes_to_hex
    bytes_below bigint_to_bytes index_of decode_base32 bigint_to_fixed_bytes address_from_public_key
    checksum_of public_key_from_address assert_address null_representative zero_hash
    tier_for_subtype tier_for_op tier_for is_symbol_start is_symbol normalize_symbol text_le
    derive_asset_id leaf_hash salt_leaf combine_hashes fold_proof verify_proof span_digits
    strip_plus fraction_of match_decimal trim_zeros starts_with pad_start split_at exponent_of
    place_point expand_exponent decimal_string amount_text scale_raw read_decimal to_raw
    format_digits format_raw add_amount sorted_insert sorted sum_amounts index_in entry_at entry_or
    sibling path_to root_of pair_up layers_from merge_entries recipient_leaves build_commit
    proof_for amount_for names_an_asset rounds_to_zero positive_amount amount_of normalize_stack
    stacks strategy_for sink_policy sink_for define_recipe define_recipes is_recipe weight_of
    includes format_number amount_text_of strip_zeros canonical_amount normalize_drop
    normalize_drops sum_weights ref_key drop_lines pick roll_drop_table award_of assert_award_shape
    digest_of define_drop_table define_drop_tables is_drop_table drop_salt check_drop_binding
bound = from_ok [] (salt_leaf ⦃c = toy⦄ salt)

bound_ok : salt_leaf ⦃c = toy⦄ salt ≡ ok bound
unfolding list_beq lookup insert erase mem add remove upper_unit upper is_space trim_start trim
    utf8_unit utf8_point utf8 is_digit decimal_from is_decimal digits_before decimal_text
    is_hex_digit is_hex hex_value pairs_to_bytes hex_to_bytes hex_digit bytes_to_digits bytes_to_hex
    bytes_below bigint_to_bytes index_of decode_base32 bigint_to_fixed_bytes address_from_public_key
    checksum_of public_key_from_address assert_address null_representative zero_hash
    tier_for_subtype tier_for_op tier_for is_symbol_start is_symbol normalize_symbol text_le
    derive_asset_id leaf_hash salt_leaf combine_hashes fold_proof verify_proof span_digits
    strip_plus fraction_of match_decimal trim_zeros starts_with pad_start split_at exponent_of
    place_point expand_exponent decimal_string amount_text scale_raw read_decimal to_raw
    format_digits format_raw add_amount sorted_insert sorted sum_amounts index_in entry_at entry_or
    sibling path_to root_of pair_up layers_from merge_entries recipient_leaves build_commit
    proof_for amount_for names_an_asset rounds_to_zero positive_amount amount_of normalize_stack
    stacks strategy_for sink_policy sink_for define_recipe define_recipes is_recipe weight_of
    includes format_number amount_text_of strip_zeros canonical_amount normalize_drop
    normalize_drops sum_weights ref_key drop_lines pick roll_drop_table award_of assert_award_shape
    digest_of define_drop_table define_drop_tables is_drop_table drop_salt check_drop_binding bound
    salt encode
bound_ok = refl

sword_id : is_hex sword (some 32) ≡ true
unfolding list_beq lookup insert erase mem add remove upper_unit upper is_space trim_start trim
    utf8_unit utf8_point utf8 is_digit decimal_from is_decimal digits_before decimal_text
    is_hex_digit is_hex hex_value pairs_to_bytes hex_to_bytes hex_digit bytes_to_digits bytes_to_hex
    bytes_below bigint_to_bytes index_of decode_base32 bigint_to_fixed_bytes address_from_public_key
    checksum_of public_key_from_address assert_address null_representative zero_hash
    tier_for_subtype tier_for_op tier_for is_symbol_start is_symbol normalize_symbol text_le
    derive_asset_id leaf_hash salt_leaf combine_hashes fold_proof verify_proof span_digits
    strip_plus fraction_of match_decimal trim_zeros starts_with pad_start split_at exponent_of
    place_point expand_exponent decimal_string amount_text scale_raw read_decimal to_raw
    format_digits format_raw add_amount sorted_insert sorted sum_amounts index_in entry_at entry_or
    sibling path_to root_of pair_up layers_from merge_entries recipient_leaves build_commit
    proof_for amount_for
sword_id = refl

to_raw-format_raw_example : to_raw (typed (format_raw (pos 1_050_000) 6)) 6 ≡ ok 1_050_000
to_raw-format_raw_example = to_raw-format_raw 1_050_000 6

proof_for-verify_proof_example :
    (leaf : Text) × LeafOf ⦃c = toy⦄ sword built.merged (toy_address 2) leaf
    × (bundle.amount ≡ decimal_text (amount_in (lookup (toy_address 2) built.merged)))
    × (verify_proof ⦃c = toy⦄ leaf bundle.proof bundle.root ≡ true)
proof_for-verify_proof_example =
    proof_for-verify_proof ⦃c = toy⦄ toy-DigestBytes sword 0 entries salt built built_ok built_count
      (toy_address 2) bundle bundle_ok

salt_proof-verify_proof_example : verify_proof ⦃c = toy⦄ bound built.salt_proof built.root ≡ true
salt_proof-verify_proof_example =
    salt_proof-verify_proof ⦃c = toy⦄ toy-DigestBytes sword 0 entries salt built built_ok
      built_count bound bound_ok

build_commit-totals_example :
    (built.total ≡ decimal_text (owed_in_all 0 entries))
    × (amount_for built (toy_address 1) ≡ decimal_text (owed 0 (toy_address 1) entries))
build_commit-totals_example =
    build_commit-totals ⦃c = toy⦄ sword 0 entries salt built built_ok (toy_address 1)

check_drop_binding-award_of_example :
    check_drop_binding ⦃c = toy⦄ (award_of table nonce built bundle) table (toy_address 2) ≡ ok tt
check_drop_binding-award_of_example =
    check_drop_binding-award_of ⦃c = toy⦄ toy-DigestBytes sword 0 entries salt built built_ok
      built_count sword_id table nonce salt_ok (toy_address 2) bundle bundle_ok

roll_drop_table-row_example : roll_drop_table table 2_147_483_648 ≡ ok (some gold_row)
unfolding sum_weights
roll_drop_table-row_example =
    roll_drop_table-row table 2_147_483_648 [] [] gold_row (omega arith) (omega arith) refl
      (omega arith) (omega arith)

roll_drop_table-nothing_example : roll_drop_table table 4_000_000_000 ≡ ok none
unfolding sum_weights
roll_drop_table-nothing_example =
    roll_drop_table-nothing table 4_000_000_000 (omega arith) (omega arith) (omega arith)

-- ===== src/Tests/Batch.antt =====
-- A batch of drops, published and verified.
use kei_transaction.Common.Tests.{
  ℕ, ◌^◌, ◌<◌, ◌≡◌, refl, true, false, Option, none, some, List, [], ◌∷◌, arith, if◌then◌else◌, eqb,
}
use kei_transaction.Common.Lists.{get_elem?}
use kei_transaction.Common.Eq.{list_beq, text_eq}
use kei_transaction.Core.Errors.{Result, ok, err}
use kei_transaction.Core.Crypto.{DigestBytes}
use kei_transaction.Core.Blocks.{anyone}
use kei_transaction.Ledger.Reads.{CommitInfo}
use kei_transaction.Economy.Batch.Published.{
  Passed, publish_drop-check_drop_binding, verify_award-Passed,
}
use kei_transaction.Tests.{toy, toy_key, toy_address, encode}
use kei_transaction.Dict.{lookup, insert, erase, mem, add, remove}
use kei_transaction.Js.Text.{
  Text, text, upper_unit, upper, is_space, trim_start, trim, utf8_unit, utf8_point, utf8,
}
use kei_transaction.Js.Number.{
  whole, is_digit, decimal_from, is_decimal, digits_before, decimal_text, round_double, halvings,
  nearest,
}
use kei_transaction.Core.Hex.{
  is_hex_digit, is_hex, hex_value, pairs_to_bytes, hex_to_bytes, hex_digit, bytes_to_digits,
  bytes_to_hex, bytes_below, bigint_to_bytes,
}
use kei_transaction.Core.Address.{
  index_of, decode_base32, bigint_to_fixed_bytes, address_from_public_key, checksum_of,
  public_key_from_address, assert_address, null_representative,
}
use kei_transaction.Core.Blocks.{
  zero_hash, tier_for_subtype, tier_for_op, tier_for, is_symbol_start, is_symbol, normalize_symbol,
}
use kei_transaction.Core.Merkle.{
  text_le, derive_asset_id, leaf_hash, salt_leaf, combine_hashes, fold_proof, verify_proof,
}
use kei_transaction.Core.Amount.Raw.{
  span_digits, strip_plus, fraction_of, match_decimal, trim_zeros, starts_with, pad_start, split_at,
  exponent_of, place_point, expand_exponent, decimal_string, amount_text, scale_raw, read_decimal,
  to_raw, format_digits, format_raw,
}
use kei_transaction.Claims.Tree.{
  BuiltCommit, ClaimBundle, add_amount, sorted_insert, sorted, sum_amounts, index_in, entry_at,
  entry_or, sibling, path_to, root_of, pair_up, layers_from, merge_entries, recipient_leaves,
  build_commit, proof_for, amount_for,
}
use kei_transaction.Claims.Headroom.{assert_commit_headroom}
use kei_transaction.Economy.Recipe.{
  named, names_an_asset, rounds_to_zero, positive_amount, amount_of, normalize_stack, stacks,
  strategy_for, sink_policy, sink_for, define_recipe, define_recipes, is_recipe,
}
use kei_transaction.Economy.Assets.{
  Node, with_amount, symbol_target, id_target, describe_ref, needs_an_issuer, resolve_stack,
  spendable_raw, sum_locked, locked_raw, format,
}
use kei_transaction.Economy.Drops.{
  DropAward, DropTable, Drop, weight_of, includes, format_number, amount_text_of, strip_zeros,
  canonical_amount, normalize_drop, normalize_drops, sum_weights, target_of, ref_key, drop_lines,
  pick, roll_drop_table, award_of, assert_award_shape, digest_of, define_drop_table,
  define_drop_tables, is_drop_table, drop_salt, check_drop_binding,
}
use kei_transaction.Economy.Batch.{
  PublishedDrop, VerifiedDrop, pick_place, roll_place, owe, award_place, roll_all, row_of,
  sum_committed, assert_headroom, declared_row, check_players, roll_call, resolve_rows, build_roots,
  publish_drop, has_bare_symbol, verify_award,
}

abbrev from_ok : {A : Type 0} → A → Result A → A
from_ok default (ok a) = a
from_ok default (err _) = default

toy-DigestBytes : DigestBytes ⦃c = toy⦄
toy-DigestBytes message = (refl, ground arith)

abbrev sword : Text
sword = toy_key 9

abbrev gold_row : Drop
gold_row = record { asset = named sword; amount = text "5"; weight = 3 }

abbrev table : DropTable
table = record {
  id = text "dragon";
  name = text "dragon";
  issuer = none;
  drops = gold_row ∷ [];
  nothing = 1;
  digest = toy_key 8;
}

abbrev nonce : Text
nonce = toy_key 7

abbrev node : Node
node = record {
  asset_info = λ id. some (record {
    id = id;
    issuer = toy_address 1;
    name = text "sword";
    symbol = text "SWORD";
    decimals = 0;
    transfer = anyone;
    max_supply = some 100;
    circulating = 60;
  });
  asset_by_symbol = λ issuer symbol. none;
  account_info = λ holder. some 50;
  holder_balance = λ id holder. 50;
  account_swaps = λ holder. [];
  swap_offer = λ hash. none;
}

abbrev players : List Text
players = toy_address 2 ∷ toy_address 3 ∷ toy_address 4 ∷ []

-- The second player rolls nothing.
abbrev words : ℕ → ℕ
words i = if eqb i 1 then 4_000_000_000 else 1_000_000_000

abbrev no_batch : PublishedDrop
no_batch = record { issuer = []; nonce = []; addresses = []; rows = []; by_asset = []; roots = [] }

abbrev batch : PublishedDrop
unfolding list_beq lookup insert erase mem add remove upper_unit upper is_space trim_start trim
    utf8_unit utf8_point utf8 is_digit decimal_from is_decimal digits_before decimal_text
    is_hex_digit is_hex hex_value pairs_to_bytes hex_to_bytes hex_digit bytes_to_digits bytes_to_hex
    bytes_below bigint_to_bytes index_of decode_base32 bigint_to_fixed_bytes address_from_public_key
    checksum_of public_key_from_address assert_address null_representative zero_hash
    tier_for_subtype tier_for_op tier_for is_symbol_start is_symbol normalize_symbol text_le
    derive_asset_id leaf_hash salt_leaf combine_hashes fold_proof verify_proof span_digits
    strip_plus fraction_of match_decimal trim_zeros starts_with pad_start split_at exponent_of
    place_point expand_exponent decimal_string amount_text scale_raw read_decimal to_raw
    format_digits format_raw add_amount sorted_insert sorted sum_amounts index_in entry_at entry_or
    sibling path_to root_of pair_up layers_from merge_entries recipient_leaves build_commit
    proof_for amount_for assert_commit_headroom names_an_asset rounds_to_zero positive_amount
    amount_of normalize_stack stacks strategy_for sink_policy sink_for define_recipe define_recipes
    is_recipe with_amount symbol_target id_target describe_ref needs_an_issuer resolve_stack
    spendable_raw sum_locked locked_raw format weight_of includes format_number amount_text_of
    strip_zeros canonical_amount normalize_drop normalize_drops sum_weights ref_key drop_lines pick
    roll_drop_table award_of assert_award_shape digest_of define_drop_table define_drop_tables
    is_drop_table drop_salt check_drop_binding pick_place target_of round_double halvings nearest
    roll_place owe award_place roll_all row_of sum_committed assert_headroom declared_row
    check_players roll_call resolve_rows build_roots publish_drop has_bare_symbol verify_award
batch =
    from_ok no_batch
      (publish_drop ⦃c = toy⦄ node true (toy_address 1) table players none words nonce)

batch_ok :
    publish_drop ⦃c = toy⦄ node true (toy_address 1) table players none words nonce ≡ ok batch
unfolding list_beq lookup insert erase mem add remove upper_unit upper is_space trim_start trim
    utf8_unit utf8_point utf8 is_digit decimal_from is_decimal digits_before decimal_text
    is_hex_digit is_hex hex_value pairs_to_bytes hex_to_bytes hex_digit bytes_to_digits bytes_to_hex
    bytes_below bigint_to_bytes index_of decode_base32 bigint_to_fixed_bytes address_from_public_key
    checksum_of public_key_from_address assert_address null_representative zero_hash
    tier_for_subtype tier_for_op tier_for is_symbol_start is_symbol normalize_symbol text_le
    derive_asset_id leaf_hash salt_leaf combine_hashes fold_proof verify_proof span_digits
    strip_plus fraction_of match_decimal trim_zeros starts_with pad_start split_at exponent_of
    place_point expand_exponent decimal_string amount_text scale_raw read_decimal to_raw
    format_digits format_raw add_amount sorted_insert sorted sum_amounts index_in entry_at entry_or
    sibling path_to root_of pair_up layers_from merge_entries recipient_leaves build_commit
    proof_for amount_for assert_commit_headroom names_an_asset rounds_to_zero positive_amount
    amount_of normalize_stack stacks strategy_for sink_policy sink_for define_recipe define_recipes
    is_recipe with_amount symbol_target id_target describe_ref needs_an_issuer resolve_stack
    spendable_raw sum_locked locked_raw format weight_of includes format_number amount_text_of
    strip_zeros canonical_amount normalize_drop normalize_drops sum_weights ref_key drop_lines pick
    roll_drop_table award_of assert_award_shape digest_of define_drop_table define_drop_tables
    is_drop_table drop_salt check_drop_binding pick_place target_of round_double halvings nearest
    roll_place owe award_place roll_all row_of sum_committed assert_headroom declared_row
    check_players roll_call resolve_rows build_roots publish_drop has_bare_symbol verify_award batch
    encode
batch_ok = refl

abbrev nobody : BuiltCommit
nobody = record {
  root = [];
  asset = [];
  count = 0;
  total = [];
  recipients = [];
  salt = [];
  salt_proof = [];
  merged = [];
  layers = [];
}

abbrev first_root : List BuiltCommit → BuiltCommit
first_root [] = nobody
first_root (built ∷ roots) = built

abbrev swords : BuiltCommit
swords = first_root batch.roots

swords_at : get_elem? batch.roots 0 ≡ some swords
unfolding list_beq lookup insert erase mem add remove upper_unit upper is_space trim_start trim
    utf8_unit utf8_point utf8 is_digit decimal_from is_decimal digits_before decimal_text
    is_hex_digit is_hex hex_value pairs_to_bytes hex_to_bytes hex_digit bytes_to_digits bytes_to_hex
    bytes_below bigint_to_bytes index_of decode_base32 bigint_to_fixed_bytes address_from_public_key
    checksum_of public_key_from_address assert_address null_representative zero_hash
    tier_for_subtype tier_for_op tier_for is_symbol_start is_symbol normalize_symbol text_le
    derive_asset_id leaf_hash salt_leaf combine_hashes fold_proof verify_proof span_digits
    strip_plus fraction_of match_decimal trim_zeros starts_with pad_start split_at exponent_of
    place_point expand_exponent decimal_string amount_text scale_raw read_decimal to_raw
    format_digits format_raw add_amount sorted_insert sorted sum_amounts index_in entry_at entry_or
    sibling path_to root_of pair_up layers_from merge_entries recipient_leaves build_commit
    proof_for amount_for assert_commit_headroom names_an_asset rounds_to_zero positive_amount
    amount_of normalize_stack stacks strategy_for sink_policy sink_for define_recipe define_recipes
    is_recipe with_amount symbol_target id_target describe_ref needs_an_issuer resolve_stack
    spendable_raw sum_locked locked_raw format weight_of includes format_number amount_text_of
    strip_zeros canonical_amount normalize_drop normalize_drops sum_weights ref_key drop_lines pick
    roll_drop_table award_of assert_award_shape digest_of define_drop_table define_drop_tables
    is_drop_table drop_salt check_drop_binding pick_place target_of round_double halvings nearest
    roll_place owe award_place roll_all row_of sum_committed assert_headroom declared_row
    check_players roll_call resolve_rows build_roots publish_drop has_bare_symbol verify_award batch
    encode
swords_at = refl

swords_few : swords.count < 2 ^ 48
unfolding list_beq lookup insert erase mem add remove upper_unit upper is_space trim_start trim
    utf8_unit utf8_point utf8 is_digit decimal_from is_decimal digits_before decimal_text
    is_hex_digit is_hex hex_value pairs_to_bytes hex_to_bytes hex_digit bytes_to_digits bytes_to_hex
    bytes_below bigint_to_bytes index_of decode_base32 bigint_to_fixed_bytes address_from_public_key
    checksum_of public_key_from_address assert_address null_representative zero_hash
    tier_for_subtype tier_for_op tier_for is_symbol_start is_symbol normalize_symbol text_le
    derive_asset_id leaf_hash salt_leaf combine_hashes fold_proof verify_proof span_digits
    strip_plus fraction_of match_decimal trim_zeros starts_with pad_start split_at exponent_of
    place_point expand_exponent decimal_string amount_text scale_raw read_decimal to_raw
    format_digits format_raw add_amount sorted_insert sorted sum_amounts index_in entry_at entry_or
    sibling path_to root_of pair_up layers_from merge_entries recipient_leaves build_commit
    proof_for amount_for assert_commit_headroom names_an_asset rounds_to_zero positive_amount
    amount_of normalize_stack stacks strategy_for sink_policy sink_for define_recipe define_recipes
    is_recipe with_amount symbol_target id_target describe_ref needs_an_issuer resolve_stack
    spendable_raw sum_locked locked_raw format weight_of includes format_number amount_text_of
    strip_zeros canonical_amount normalize_drop normalize_drops sum_weights ref_key drop_lines pick
    roll_drop_table award_of assert_award_shape digest_of define_drop_table define_drop_tables
    is_drop_table drop_salt check_drop_binding pick_place target_of round_double halvings nearest
    roll_place owe award_place roll_all row_of sum_committed assert_headroom declared_row
    check_players roll_call resolve_rows build_roots publish_drop has_bare_symbol verify_award batch
    encode
swords_few = omega arith

swords_id : is_hex swords.asset (some 32) ≡ true
unfolding list_beq lookup insert erase mem add remove upper_unit upper is_space trim_start trim
    utf8_unit utf8_point utf8 is_digit decimal_from is_decimal digits_before decimal_text
    is_hex_digit is_hex hex_value pairs_to_bytes hex_to_bytes hex_digit bytes_to_digits bytes_to_hex
    bytes_below bigint_to_bytes index_of decode_base32 bigint_to_fixed_bytes address_from_public_key
    checksum_of public_key_from_address assert_address null_representative zero_hash
    tier_for_subtype tier_for_op tier_for is_symbol_start is_symbol normalize_symbol text_le
    derive_asset_id leaf_hash salt_leaf combine_hashes fold_proof verify_proof span_digits
    strip_plus fraction_of match_decimal trim_zeros starts_with pad_start split_at exponent_of
    place_point expand_exponent decimal_string amount_text scale_raw read_decimal to_raw
    format_digits format_raw add_amount sorted_insert sorted sum_amounts index_in entry_at entry_or
    sibling path_to root_of pair_up layers_from merge_entries recipient_leaves build_commit
    proof_for amount_for assert_commit_headroom names_an_asset rounds_to_zero positive_amount
    amount_of normalize_stack stacks strategy_for sink_policy sink_for define_recipe define_recipes
    is_recipe with_amount symbol_target id_target describe_ref needs_an_issuer resolve_stack
    spendable_raw sum_locked locked_raw format weight_of includes format_number amount_text_of
    strip_zeros canonical_amount normalize_drop normalize_drops sum_weights ref_key drop_lines pick
    roll_drop_table award_of assert_award_shape digest_of define_drop_table define_drop_tables
    is_drop_table drop_salt check_drop_binding pick_place target_of round_double halvings nearest
    roll_place owe award_place roll_all row_of sum_committed assert_headroom declared_row
    check_players roll_call resolve_rows build_roots publish_drop has_bare_symbol verify_award batch
    encode
swords_id = refl

abbrev bundle : ClaimBundle
unfolding list_beq lookup insert erase mem add remove upper_unit upper is_space trim_start trim
    utf8_unit utf8_point utf8 is_digit decimal_from is_decimal digits_before decimal_text
    is_hex_digit is_hex hex_value pairs_to_bytes hex_to_bytes hex_digit bytes_to_digits bytes_to_hex
    bytes_below bigint_to_bytes index_of decode_base32 bigint_to_fixed_bytes address_from_public_key
    checksum_of public_key_from_address assert_address null_representative zero_hash
    tier_for_subtype tier_for_op tier_for is_symbol_start is_symbol normalize_symbol text_le
    derive_asset_id leaf_hash salt_leaf combine_hashes fold_proof verify_proof span_digits
    strip_plus fraction_of match_decimal trim_zeros starts_with pad_start split_at exponent_of
    place_point expand_exponent decimal_string amount_text scale_raw read_decimal to_raw
    format_digits format_raw add_amount sorted_insert sorted sum_amounts index_in entry_at entry_or
    sibling path_to root_of pair_up layers_from merge_entries recipient_leaves build_commit
    proof_for amount_for assert_commit_headroom names_an_asset rounds_to_zero positive_amount
    amount_of normalize_stack stacks strategy_for sink_policy sink_for define_recipe define_recipes
    is_recipe with_amount symbol_target id_target describe_ref needs_an_issuer resolve_stack
    spendable_raw sum_locked locked_raw format weight_of includes format_number amount_text_of
    strip_zeros canonical_amount normalize_drop normalize_drops sum_weights ref_key drop_lines pick
    roll_drop_table award_of assert_award_shape digest_of define_drop_table define_drop_tables
    is_drop_table drop_salt check_drop_binding pick_place target_of round_double halvings nearest
    roll_place owe award_place roll_all row_of sum_committed assert_headroom declared_row
    check_players roll_call resolve_rows build_roots publish_drop has_bare_symbol verify_award
bundle =
    from_ok (record { root = []; asset = []; amount = []; proof = [] })
      (proof_for swords (toy_address 4))

bundle_ok : proof_for swords (toy_address 4) ≡ ok bundle
unfolding list_beq lookup insert erase mem add remove upper_unit upper is_space trim_start trim
    utf8_unit utf8_point utf8 is_digit decimal_from is_decimal digits_before decimal_text
    is_hex_digit is_hex hex_value pairs_to_bytes hex_to_bytes hex_digit bytes_to_digits bytes_to_hex
    bytes_below bigint_to_bytes index_of decode_base32 bigint_to_fixed_bytes address_from_public_key
    checksum_of public_key_from_address assert_address null_representative zero_hash
    tier_for_subtype tier_for_op tier_for is_symbol_start is_symbol normalize_symbol text_le
    derive_asset_id leaf_hash salt_leaf combine_hashes fold_proof verify_proof span_digits
    strip_plus fraction_of match_decimal trim_zeros starts_with pad_start split_at exponent_of
    place_point expand_exponent decimal_string amount_text scale_raw read_decimal to_raw
    format_digits format_raw add_amount sorted_insert sorted sum_amounts index_in entry_at entry_or
    sibling path_to root_of pair_up layers_from merge_entries recipient_leaves build_commit
    proof_for amount_for assert_commit_headroom names_an_asset rounds_to_zero positive_amount
    amount_of normalize_stack stacks strategy_for sink_policy sink_for define_recipe define_recipes
    is_recipe with_amount symbol_target id_target describe_ref needs_an_issuer resolve_stack
    spendable_raw sum_locked locked_raw format weight_of includes format_number amount_text_of
    strip_zeros canonical_amount normalize_drop normalize_drops sum_weights ref_key drop_lines pick
    roll_drop_table award_of assert_award_shape digest_of define_drop_table define_drop_tables
    is_drop_table drop_salt check_drop_binding pick_place target_of round_double halvings nearest
    roll_place owe award_place roll_all row_of sum_committed assert_headroom declared_row
    check_players roll_call resolve_rows build_roots publish_drop has_bare_symbol verify_award
    bundle batch encode
bundle_ok = refl

publish_drop-check_drop_binding_example :
    check_drop_binding ⦃c = toy⦄ (award_of table nonce swords bundle) table (toy_address 4) ≡ ok tt
publish_drop-check_drop_binding_example =
    publish_drop-check_drop_binding ⦃c = toy⦄ toy-DigestBytes node true (toy_address 1) table
      players none words nonce batch batch_ok 0 swords swords_at swords_few swords_id
      (toy_address 4) bundle bundle_ok

abbrev award : DropAward
unfolding list_beq lookup insert erase mem add remove upper_unit upper is_space trim_start trim
    utf8_unit utf8_point utf8 is_digit decimal_from is_decimal digits_before decimal_text
    is_hex_digit is_hex hex_value pairs_to_bytes hex_to_bytes hex_digit bytes_to_digits bytes_to_hex
    bytes_below bigint_to_bytes index_of decode_base32 bigint_to_fixed_bytes address_from_public_key
    checksum_of public_key_from_address assert_address null_representative zero_hash
    tier_for_subtype tier_for_op tier_for is_symbol_start is_symbol normalize_symbol text_le
    derive_asset_id leaf_hash salt_leaf combine_hashes fold_proof verify_proof span_digits
    strip_plus fraction_of match_decimal trim_zeros starts_with pad_start split_at exponent_of
    place_point expand_exponent decimal_string amount_text scale_raw read_decimal to_raw
    format_digits format_raw add_amount sorted_insert sorted sum_amounts index_in entry_at entry_or
    sibling path_to root_of pair_up layers_from merge_entries recipient_leaves build_commit
    proof_for amount_for assert_commit_headroom names_an_asset rounds_to_zero positive_amount
    amount_of normalize_stack stacks strategy_for sink_policy sink_for define_recipe define_recipes
    is_recipe with_amount symbol_target id_target describe_ref needs_an_issuer resolve_stack
    spendable_raw sum_locked locked_raw format weight_of includes format_number amount_text_of
    strip_zeros canonical_amount normalize_drop normalize_drops sum_weights ref_key drop_lines pick
    roll_drop_table award_of assert_award_shape digest_of define_drop_table define_drop_tables
    is_drop_table drop_salt check_drop_binding pick_place target_of round_double halvings nearest
    roll_place owe award_place roll_all row_of sum_committed assert_headroom declared_row
    check_players roll_call resolve_rows build_roots publish_drop has_bare_symbol verify_award
award = award_of table nonce swords bundle

abbrev commits : Text → Option CommitInfo
commits root = some (record {
  root = root;
  issuer = toy_address 1;
  asset = sword;
  count = whole 2;
  total = text "10";
  closed = false;
})

abbrev checked : VerifiedDrop
unfolding list_beq lookup insert erase mem add remove upper_unit upper is_space trim_start trim
    utf8_unit utf8_point utf8 is_digit decimal_from is_decimal digits_before decimal_text
    is_hex_digit is_hex hex_value pairs_to_bytes hex_to_bytes hex_digit bytes_to_digits bytes_to_hex
    bytes_below bigint_to_bytes index_of decode_base32 bigint_to_fixed_bytes address_from_public_key
    checksum_of public_key_from_address assert_address null_representative zero_hash
    tier_for_subtype tier_for_op tier_for is_symbol_start is_symbol normalize_symbol text_le
    derive_asset_id leaf_hash salt_leaf combine_hashes fold_proof verify_proof span_digits
    strip_plus fraction_of match_decimal trim_zeros starts_with pad_start split_at exponent_of
    place_point expand_exponent decimal_string amount_text scale_raw read_decimal to_raw
    format_digits format_raw add_amount sorted_insert sorted sum_amounts index_in entry_at entry_or
    sibling path_to root_of pair_up layers_from merge_entries recipient_leaves build_commit
    proof_for amount_for assert_commit_headroom names_an_asset rounds_to_zero positive_amount
    amount_of normalize_stack stacks strategy_for sink_policy sink_for define_recipe define_recipes
    is_recipe with_amount symbol_target id_target describe_ref needs_an_issuer resolve_stack
    spendable_raw sum_locked locked_raw format weight_of includes format_number amount_text_of
    strip_zeros canonical_amount normalize_drop normalize_drops sum_weights ref_key drop_lines pick
    roll_drop_table award_of assert_award_shape digest_of define_drop_table define_drop_tables
    is_drop_table drop_salt check_drop_binding pick_place target_of round_double halvings nearest
    roll_place owe award_place roll_all row_of sum_committed assert_headroom declared_row
    check_players roll_call resolve_rows build_roots publish_drop has_bare_symbol verify_award
checked =
    from_ok (record { root = []; asset = []; symbol = []; drop = gold_row })
      (verify_award ⦃c = toy⦄ node commits award table (toy_address 4))

checked_ok : verify_award ⦃c = toy⦄ node commits award table (toy_address 4) ≡ ok checked
unfolding list_beq lookup insert erase mem add remove upper_unit upper is_space trim_start trim
    utf8_unit utf8_point utf8 is_digit decimal_from is_decimal digits_before decimal_text
    is_hex_digit is_hex hex_value pairs_to_bytes hex_to_bytes hex_digit bytes_to_digits bytes_to_hex
    bytes_below bigint_to_bytes index_of decode_base32 bigint_to_fixed_bytes address_from_public_key
    checksum_of public_key_from_address assert_address null_representative zero_hash
    tier_for_subtype tier_for_op tier_for is_symbol_start is_symbol normalize_symbol text_le
    derive_asset_id leaf_hash salt_leaf combine_hashes fold_proof verify_proof span_digits
    strip_plus fraction_of match_decimal trim_zeros starts_with pad_start split_at exponent_of
    place_point expand_exponent decimal_string amount_text scale_raw read_decimal to_raw
    format_digits format_raw add_amount sorted_insert sorted sum_amounts index_in entry_at entry_or
    sibling path_to root_of pair_up layers_from merge_entries recipient_leaves build_commit
    proof_for amount_for assert_commit_headroom names_an_asset rounds_to_zero positive_amount
    amount_of normalize_stack stacks strategy_for sink_policy sink_for define_recipe define_recipes
    is_recipe with_amount symbol_target id_target describe_ref needs_an_issuer resolve_stack
    spendable_raw sum_locked locked_raw format weight_of includes format_number amount_text_of
    strip_zeros canonical_amount normalize_drop normalize_drops sum_weights ref_key drop_lines pick
    roll_drop_table award_of assert_award_shape digest_of define_drop_table define_drop_tables
    is_drop_table drop_salt check_drop_binding pick_place target_of round_double halvings nearest
    roll_place owe award_place roll_all row_of sum_committed assert_headroom declared_row
    check_players roll_call resolve_rows build_roots publish_drop has_bare_symbol verify_award
    checked award bundle batch encode
checked_ok = refl

verify_award-Passed_example : Passed ⦃c = toy⦄ node commits award table (toy_address 4) checked
verify_award-Passed_example =
    verify_award-Passed ⦃c = toy⦄ node commits award table (toy_address 4) checked checked_ok

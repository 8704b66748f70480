-- ===== src/Tests/Plans.antt =====
-- Blocks on the wire, recipes and plans.
use kei_transaction.Common.Tests.{
  ◌⊎◌, ◌++◌, ◌<◌, ℕ, ◌+◌, ◌*◌, ◌≤◌, ◌≡◌, ◌↔◌, refl, true, false, none, some, List, [], ◌∷◌, arith,
}
use kei_transaction.Common.Lists.{length, replicate}
use kei_transaction.Common.Eq.{◌==◌, list_beq, text_eq}
use kei_transaction.Core.Errors.{Result, ok, err}
use kei_transaction.Core.Crypto.{DigestBytes}
use kei_transaction.Core.Blocks.{
  StateBlockBody, AssetBlockBody, state, asset, burn, send, issuer_only, one_way,
}
use kei_transaction.Core.Hex.RoundTrip.{
  bytes_value, bytes_value-bigint_to_bytes, hex_to_bytes-bytes_to_hex,
}
use kei_transaction.Core.Wire.Parts.{payload_parts}
use kei_transaction.Core.Wire.Framing.{
  asset_bytes-widths, asset_bytes-injective, block_preimage-apart,
}
use kei_transaction.Ledger.State.{AssetRecord}
use kei_transaction.Ledger.Guards.{enforce_transfer_policy, require_swappable, require_headroom}
use kei_transaction.Tests.{toy, toy_key, toy_address, encode}
use kei_transaction.Claims.Tree.Layers.{layers_from-ends, last_layer, length-path_to}
use kei_transaction.Economy.Recipe.Shapes.{define_recipe-shape, Fits}
use kei_transaction.Economy.Plan.Checks.{
  Tells, check_transferable-enforce_transfer_policy, check_swappable-require_swappable,
  over_cap-require_headroom,
}
use kei_transaction.Economy.Plan.Steps.{EachCovered, plan_grants-EachCovered}
use kei_transaction.Economy.Plan.Atomic.{build_plan-atomic}
use kei_transaction.Dict.{lookup, insert, erase, mem, add, remove}
use kei_transaction.Js.Text.{
  Text, text, upper_unit, upper, is_space, trim_start, trim, utf8_unit, utf8_point, utf8,
}
use kei_transaction.Js.Number.{
  whole, is_digit, decimal_from, is_decimal, digits_before, decimal_text,
}
use kei_transaction.Core.Hex.{
  is_hex_digit, is_hex, hex_value, pairs_to_bytes, hex_to_bytes, hex_digit, bytes_to_digits,
  bytes_to_hex, bytes_below, bigint_to_bytes,
}
use kei_transaction.Core.Address.{
  index_of, decode_base32, bigint_to_fixed_bytes, address_from_public_key, checksum_of,
  public_key_from_address, assert_address, null_representative,
}
use kei_transaction.Core.Blocks.{
  zero_hash, tier_for_subtype, tier_for_op, tier_for, is_symbol_start, is_symbol, normalize_symbol,
}
use kei_transaction.Core.Merkle.{
  text_le, derive_asset_id, leaf_hash, salt_leaf, combine_hashes, fold_proof, verify_proof,
}
use kei_transaction.Core.Amount.Raw.{
  typed, span_digits, strip_plus, fraction_of, match_decimal, trim_zeros, starts_with, pad_start,
  split_at, exponent_of, place_point, expand_exponent, decimal_string, amount_text, scale_raw,
  read_decimal, to_raw, format_digits, format_raw,
}
use kei_transaction.Claims.Tree.{path_to, layers_from}
use kei_transaction.Core.Wire.{
  WireFields, asset_op, hash_bytes, is_plain_decimal, amount_bytes, u8, u16le, timestamp_bytes,
  payload_string, enum_byte, zeros, is_radix, is_zero_numeral, is_zero_cap, issue_payload,
  offer_payload, commit_count, proof_bytes, kei_block_domain, preamble, account_bytes, asset_fields,
  state_bytes, asset_bytes, node_layout_gap, block_preimage, hashed_bytes,
}
use kei_transaction.Economy.Recipe.{
  RecipeSpec, Recipe, named, grant, to_nobody, names_an_asset, rounds_to_zero, positive_amount,
  amount_of, normalize_stack, stacks, strategy_for, sink_policy, sink_for, define_recipe,
  define_recipes, is_recipe,
}
use kei_transaction.Economy.Assets.{
  ResolvedStack, Node, with_amount, symbol_target, id_target, describe_ref, needs_an_issuer,
  resolve_stack, spendable_raw, sum_locked, locked_raw, format,
}
use kei_transaction.Economy.Plan.{
  is_kei, over_cap, Plan, PlanOptions, PlanContext, check_transferable, check_swappable,
  check_requirements, check_affordable, plan_one_grant, plan_grants, plan_grant, plan_one_burn,
  plan_one_payment, plan_burns, plan_payments, plan_sink, raw_terms_match, exact_hashes, offers_in,
  matching_offers, acceptable_by, terms_match, check_backing, plan_swap, plan_exchange,
  moving_steps, plan_by, is_atomic, resolve_all, plan_for, build_plan, assert_runnable,
}

abbrev from_ok : {A : Type 0} → A → Result A → A
from_ok default (ok a) = a
from_ok default (err _) = default

toy-DigestBytes : DigestBytes ⦃c = toy⦄
toy-DigestBytes message = (refl, ground arith)

abbrev burn_at : Text → AssetBlockBody
burn_at previous = record {
  account = toy_key 1;
  previous = previous;
  representative = toy_key 2;
  balance = text "1000";
  op = burn (record { asset = toy_key 9; amount = text "7" });
}

abbrev burn_upper : AssetBlockBody
burn_upper = burn_at (replicate 64 b'A')

abbrev burn_lower : AssetBlockBody
burn_lower = burn_at (replicate 64 b'a')

abbrev burn_message : List ℕ
unfolding list_beq lookup insert erase mem add remove upper_unit upper is_space trim_start trim
    utf8_unit utf8_point utf8 is_digit decimal_from is_decimal digits_before decimal_text
    is_hex_digit is_hex hex_value pairs_to_bytes hex_to_bytes hex_digit bytes_to_digits bytes_to_hex
    bytes_below bigint_to_bytes index_of decode_base32 bigint_to_fixed_bytes address_from_public_key
    checksum_of public_key_from_address assert_address null_representative zero_hash
    tier_for_subtype tier_for_op tier_for is_symbol_start is_symbol normalize_symbol text_le
    derive_asset_id leaf_hash salt_leaf combine_hashes fold_proof verify_proof span_digits
    strip_plus fraction_of match_decimal trim_zeros starts_with pad_start split_at exponent_of
    place_point expand_exponent decimal_string amount_text scale_raw read_decimal to_raw
    format_digits format_raw asset_op hash_bytes is_plain_decimal amount_bytes u8 u16le
    timestamp_bytes payload_string enum_byte zeros is_radix is_zero_numeral is_zero_cap
    issue_payload offer_payload commit_count proof_bytes kei_block_domain preamble account_bytes
    asset_fields state_bytes asset_bytes node_layout_gap block_preimage hashed_bytes
burn_message = from_ok [] (asset_bytes ⦃c = toy⦄ burn_upper)

upper_ok : asset_bytes ⦃c = toy⦄ burn_upper ≡ ok burn_message
unfolding list_beq lookup insert erase mem add remove upper_unit upper is_space trim_start trim
    utf8_unit utf8_point utf8 is_digit decimal_from is_decimal digits_before decimal_text
    is_hex_digit is_hex hex_value pairs_to_bytes hex_to_bytes hex_digit bytes_to_digits bytes_to_hex
    bytes_below bigint_to_bytes index_of decode_base32 bigint_to_fixed_bytes address_from_public_key
    checksum_of public_key_from_address assert_address null_representative zero_hash
    tier_for_subtype tier_for_op tier_for is_symbol_start is_symbol normalize_symbol text_le
    derive_asset_id leaf_hash salt_leaf combine_hashes fold_proof verify_proof span_digits
    strip_plus fraction_of match_decimal trim_zeros starts_with pad_start split_at exponent_of
    place_point expand_exponent decimal_string amount_text scale_raw read_decimal to_raw
    format_digits format_raw asset_op hash_bytes is_plain_decimal amount_bytes u8 u16le
    timestamp_bytes payload_string enum_byte zeros is_radix is_zero_numeral is_zero_cap
    issue_payload offer_payload commit_count proof_bytes kei_block_domain preamble account_bytes
    asset_fields state_bytes asset_bytes node_layout_gap block_preimage hashed_bytes burn_message
upper_ok = refl

lower_ok : asset_bytes ⦃c = toy⦄ burn_lower ≡ ok burn_message
unfolding list_beq lookup insert erase mem add remove upper_unit upper is_space trim_start trim
    utf8_unit utf8_point utf8 is_digit decimal_from is_decimal digits_before decimal_text
    is_hex_digit is_hex hex_value pairs_to_bytes hex_to_bytes hex_digit bytes_to_digits bytes_to_hex
    bytes_below bigint_to_bytes index_of decode_base32 bigint_to_fixed_bytes address_from_public_key
    checksum_of public_key_from_address assert_address null_representative zero_hash
    tier_for_subtype tier_for_op tier_for is_symbol_start is_symbol normalize_symbol text_le
    derive_asset_id leaf_hash salt_leaf combine_hashes fold_proof verify_proof span_digits
    strip_plus fraction_of match_decimal trim_zeros starts_with pad_start split_at exponent_of
    place_point expand_exponent decimal_string amount_text scale_raw read_decimal to_raw
    format_digits format_raw asset_op hash_bytes is_plain_decimal amount_bytes u8 u16le
    timestamp_bytes payload_string enum_byte zeros is_radix is_zero_numeral is_zero_cap
    issue_payload offer_payload commit_count proof_bytes kei_block_domain preamble account_bytes
    asset_fields state_bytes asset_bytes node_layout_gap block_preimage hashed_bytes burn_message
lower_ok = refl

abbrev transfer_body : StateBlockBody
transfer_body = record {
  subtype = send;
  account = toy_key 1;
  previous = toy_key 3;
  representative = toy_key 2;
  balance = text "1000";
  link = toy_key 4;
  memo = none;
}

abbrev state_message : List ℕ
unfolding list_beq lookup insert erase mem add remove upper_unit upper is_space trim_start trim
    utf8_unit utf8_point utf8 is_digit decimal_from is_decimal digits_before decimal_text
    is_hex_digit is_hex hex_value pairs_to_bytes hex_to_bytes hex_digit bytes_to_digits bytes_to_hex
    bytes_below bigint_to_bytes index_of decode_base32 bigint_to_fixed_bytes address_from_public_key
    checksum_of public_key_from_address assert_address null_representative zero_hash
    tier_for_subtype tier_for_op tier_for is_symbol_start is_symbol normalize_symbol text_le
    derive_asset_id leaf_hash salt_leaf combine_hashes fold_proof verify_proof span_digits
    strip_plus fraction_of match_decimal trim_zeros starts_with pad_start split_at exponent_of
    place_point expand_exponent decimal_string amount_text scale_raw read_decimal to_raw
    format_digits format_raw asset_op hash_bytes is_plain_decimal amount_bytes u8 u16le
    timestamp_bytes payload_string enum_byte zeros is_radix is_zero_numeral is_zero_cap
    issue_payload offer_payload commit_count proof_bytes kei_block_domain preamble account_bytes
    asset_fields state_bytes asset_bytes node_layout_gap block_preimage hashed_bytes
state_message = from_ok [] (block_preimage ⦃c = toy⦄ (state transfer_body))

state_ok : block_preimage ⦃c = toy⦄ (state transfer_body) ≡ ok state_message
unfolding list_beq lookup insert erase mem add remove upper_unit upper is_space trim_start trim
    utf8_unit utf8_point utf8 is_digit decimal_from is_decimal digits_before decimal_text
    is_hex_digit is_hex hex_value pairs_to_bytes hex_to_bytes hex_digit bytes_to_digits bytes_to_hex
    bytes_below bigint_to_bytes index_of decode_base32 bigint_to_fixed_bytes address_from_public_key
    checksum_of public_key_from_address assert_address null_representative zero_hash
    tier_for_subtype tier_for_op tier_for is_symbol_start is_symbol normalize_symbol text_le
    derive_asset_id leaf_hash salt_leaf combine_hashes fold_proof verify_proof span_digits
    strip_plus fraction_of match_decimal trim_zeros starts_with pad_start split_at exponent_of
    place_point expand_exponent decimal_string amount_text scale_raw read_decimal to_raw
    format_digits format_raw asset_op hash_bytes is_plain_decimal amount_bytes u8 u16le
    timestamp_bytes payload_string enum_byte zeros is_radix is_zero_numeral is_zero_cap
    issue_payload offer_payload commit_count proof_bytes kei_block_domain preamble account_bytes
    asset_fields state_bytes asset_bytes node_layout_gap block_preimage hashed_bytes state_message
state_ok = refl

three_bytes : bigint_to_bytes 66_051 3 ≡ ok (1 ∷ 2 ∷ 3 ∷ [])
unfolding list_beq lookup insert erase mem add remove upper_unit upper is_space trim_start trim
    utf8_unit utf8_point utf8 is_digit decimal_from is_decimal digits_before decimal_text
    is_hex_digit is_hex hex_value pairs_to_bytes hex_to_bytes hex_digit bytes_to_digits bytes_to_hex
    bytes_below bigint_to_bytes index_of decode_base32 bigint_to_fixed_bytes address_from_public_key
    checksum_of public_key_from_address assert_address null_representative zero_hash
    tier_for_subtype tier_for_op tier_for is_symbol_start is_symbol normalize_symbol text_le
    derive_asset_id leaf_hash salt_leaf combine_hashes fold_proof verify_proof span_digits
    strip_plus fraction_of match_decimal trim_zeros starts_with pad_start split_at exponent_of
    place_point expand_exponent decimal_string amount_text scale_raw read_decimal to_raw
    format_digits format_raw asset_op hash_bytes is_plain_decimal amount_bytes u8 u16le
    timestamp_bytes payload_string enum_byte zeros is_radix is_zero_numeral is_zero_cap
    issue_payload offer_payload commit_count proof_bytes kei_block_domain preamble account_bytes
    asset_fields state_bytes asset_bytes node_layout_gap block_preimage hashed_bytes
three_bytes = refl

bytes_value-bigint_to_bytes_example : bytes_value 0 (1 ∷ 2 ∷ 3 ∷ []) ≡ 66_051
bytes_value-bigint_to_bytes_example =
    bytes_value-bigint_to_bytes 66_051 3 (1 ∷ 2 ∷ 3 ∷ []) three_bytes

hex_to_bytes-bytes_to_hex_example :
    hex_to_bytes (bytes_to_hex (0 ∷ 255 ∷ 16 ∷ [])) ≡ ok (0 ∷ 255 ∷ 16 ∷ [])
hex_to_bytes-bytes_to_hex_example = hex_to_bytes-bytes_to_hex (0 ∷ 255 ∷ 16 ∷ []) refl (omega arith)

asset_bytes-widths_example :
    (fields : WireFields) × (front : List ℕ) × (low : ℕ) × (high : ℕ) × (asset_fields ⦃c = toy⦄
        burn_upper.account burn_upper.op
      ≡ ok fields)
    × (burn_message ≡ front ++ (low ∷ high ∷ fields.payload))
    × (length front ≡ 257)
    × (low + high * 256 ≡ length fields.payload)
    × (low < 256)
    × (high < 256)
    × (length fields.payload ≤ 1537)
asset_bytes-widths_example =
    asset_bytes-widths ⦃c = toy⦄ toy-DigestBytes burn_upper burn_message upper_ok

asset_bytes-injective_example :
    (account_bytes ⦃c = toy⦄ burn_upper.account ≡ account_bytes ⦃c = toy⦄ burn_lower.account)
    × (hash_bytes burn_upper.previous ≡ hash_bytes burn_lower.previous)
    × (account_bytes ⦃c = toy⦄ burn_upper.representative
        ≡ account_bytes ⦃c = toy⦄ burn_lower.representative)
    × (amount_bytes burn_upper.balance ≡ amount_bytes burn_lower.balance)
    × (asset_op burn_upper.op ≡ asset_op burn_lower.op)
    × (asset_fields ⦃c = toy⦄ burn_upper.account burn_upper.op
        ≡ asset_fields ⦃c = toy⦄ burn_lower.account burn_lower.op)
    × (payload_parts burn_upper.op ≡ payload_parts burn_lower.op)
asset_bytes-injective_example =
    asset_bytes-injective ⦃c = toy⦄ toy-DigestBytes burn_upper burn_lower burn_message upper_ok
      lower_ok

block_preimage-apart_example : ¬ (block_preimage ⦃c = toy⦄ (asset burn_upper) ≡ ok state_message)
block_preimage-apart_example =
    block_preimage-apart ⦃c = toy⦄ toy-DigestBytes transfer_body burn_upper state_message state_ok

layers_from-ends_example :
    (layers_from ⦃c = toy⦄ (3 + 5) (toy_key 1 ∷ toy_key 2 ∷ toy_key 3 ∷ [])
      ≡ layers_from ⦃c = toy⦄ 3 (toy_key 1 ∷ toy_key 2 ∷ toy_key 3 ∷ []))
    × (length (last_layer (layers_from ⦃c = toy⦄ 3 (toy_key 1 ∷ toy_key 2 ∷ toy_key 3 ∷ []))) ≡ 1)
layers_from-ends_example =
    layers_from-ends ⦃c = toy⦄ 5 (toy_key 1 ∷ toy_key 2 ∷ toy_key 3 ∷ []) (omega arith)

length-path_to_example :
    length (path_to (layers_from ⦃c = toy⦄ 3 (toy_key 1 ∷ toy_key 2 ∷ toy_key 3 ∷ [])) 1) ≤ 2
length-path_to_example =
    length-path_to ⦃c = toy⦄ 2 3 (toy_key 1 ∷ toy_key 2 ∷ toy_key 3 ∷ []) 1 (omega arith)

abbrev shop_spec : RecipeSpec
shop_spec = record {
  id = text " shop ";
  name = none;
  description = none;
  requires = [];
  costs = record { asset = named (toy_key 8); amount = some (typed (text "1.5")) } ∷ [];
  grants = record { asset = named (toy_key 9); amount = none } ∷ [];
  sink = none;
  issuer = none;
  expires_in = none;
}

abbrev no_recipe : Recipe
no_recipe = record {
  id = [];
  name = [];
  description = none;
  strategy = grant;
  requires = [];
  costs = [];
  grants = [];
  sink = to_nobody;
  issuer = none;
  expires_in = none;
}

abbrev shop : Recipe
unfolding list_beq lookup insert erase mem add remove upper_unit upper is_space trim_start trim
    utf8_unit utf8_point utf8 is_digit decimal_from is_decimal digits_before decimal_text
    is_hex_digit is_hex hex_value pairs_to_bytes hex_to_bytes hex_digit bytes_to_digits bytes_to_hex
    bytes_below bigint_to_bytes index_of decode_base32 bigint_to_fixed_bytes address_from_public_key
    checksum_of public_key_from_address assert_address null_representative zero_hash
    tier_for_subtype tier_for_op tier_for is_symbol_start is_symbol normalize_symbol text_le
    derive_asset_id leaf_hash salt_leaf combine_hashes fold_proof verify_proof span_digits
    strip_plus fraction_of match_decimal trim_zeros starts_with pad_start split_at exponent_of
    place_point expand_exponent decimal_string amount_text scale_raw read_decimal to_raw
    format_digits format_raw names_an_asset rounds_to_zero positive_amount amount_of normalize_stack
    stacks strategy_for sink_policy sink_for define_recipe define_recipes is_recipe with_amount
    symbol_target id_target describe_ref needs_an_issuer resolve_stack spendable_raw sum_locked
    locked_raw format check_transferable check_swappable check_requirements check_affordable
    plan_one_grant plan_grants plan_grant plan_one_burn plan_one_payment plan_burns plan_payments
    plan_sink raw_terms_match exact_hashes offers_in matching_offers acceptable_by terms_match
    check_backing plan_swap plan_exchange moving_steps plan_by is_atomic resolve_all plan_for
    build_plan assert_runnable
shop = from_ok no_recipe (define_recipe ⦃c = toy⦄ shop_spec)

shop_ok : define_recipe ⦃c = toy⦄ shop_spec ≡ ok shop
unfolding list_beq lookup insert erase mem add remove upper_unit upper is_space trim_start trim
    utf8_unit utf8_point utf8 is_digit decimal_from is_decimal digits_before decimal_text
    is_hex_digit is_hex hex_value pairs_to_bytes hex_to_bytes hex_digit bytes_to_digits bytes_to_hex
    bytes_below bigint_to_bytes index_of decode_base32 bigint_to_fixed_bytes address_from_public_key
    checksum_of public_key_from_address assert_address null_representative zero_hash
    tier_for_subtype tier_for_op tier_for is_symbol_start is_symbol normalize_symbol text_le
    derive_asset_id leaf_hash salt_leaf combine_hashes fold_proof verify_proof span_digits
    strip_plus fraction_of match_decimal trim_zeros starts_with pad_start split_at exponent_of
    place_point expand_exponent decimal_string amount_text scale_raw read_decimal to_raw
    format_digits format_raw names_an_asset rounds_to_zero positive_amount amount_of normalize_stack
    stacks strategy_for sink_policy sink_for define_recipe define_recipes is_recipe with_amount
    symbol_target id_target describe_ref needs_an_issuer resolve_stack spendable_raw sum_locked
    locked_raw format check_transferable check_swappable check_requirements check_affordable
    plan_one_grant plan_grants plan_grant plan_one_burn plan_one_payment plan_burns plan_payments
    plan_sink raw_terms_match exact_hashes offers_in matching_offers acceptable_by terms_match
    check_backing plan_swap plan_exchange moving_steps plan_by is_atomic resolve_all plan_for
    build_plan assert_runnable shop
shop_ok = refl

define_recipe-shape_example :
    Fits shop.strategy (length shop.costs) (length shop.grants) shop.sink
    × (is_recipe true shop ≡ true)
define_recipe-shape_example = define_recipe-shape ⦃c = toy⦄ shop_spec shop shop_ok

abbrev gold : AssetRecord
gold = record {
  id = toy_key 9;
  issuer = toy_address 1;
  name = text "gold";
  symbol = text "GOLD";
  decimals = whole 0;
  max_supply = some 100;
  transfer = issuer_only;
  swap = one_way;
  description = none;
  image = none;
  kind = none;
  circulating = 60;
}

abbrev gold_stack : Text → ResolvedStack
gold_stack id = record {
  asset = id;
  symbol = text "GOLD";
  name = text "gold";
  decimals = 0;
  issuer = some (toy_address 1);
  transfer_policy = issuer_only;
  max_supply_raw = some 100;
  circulating_raw = 60;
  amount = text "5";
  raw = 5;
}

gold_told : Tells (gold_stack (toy_key 9)) gold
gold_told = record {
  told_issuer = refl;
  told_policy = refl;
  told_cap = refl;
  told_circulating = refl;
}

check_transferable-enforce_transfer_policy_example :
    (check_transferable (gold_stack (toy_key 9)) (toy_address 2) (toy_address 1) ≡ [])
    ↔ (enforce_transfer_policy gold (toy_address 2) (toy_address 1) ≡ ok tt)
check_transferable-enforce_transfer_policy_example =
    check_transferable-enforce_transfer_policy (gold_stack (toy_key 9)) gold gold_told
      (toy_address 2) (toy_address 1)

gold_issued : is_kei (gold_stack (toy_key 9)) ≡ false
unfolding list_beq lookup insert erase mem add remove upper_unit upper is_space trim_start trim
    utf8_unit utf8_point utf8 is_digit decimal_from is_decimal digits_before decimal_text
    is_hex_digit is_hex hex_value pairs_to_bytes hex_to_bytes hex_digit bytes_to_digits bytes_to_hex
    bytes_below bigint_to_bytes index_of decode_base32 bigint_to_fixed_bytes address_from_public_key
    checksum_of public_key_from_address assert_address null_representative zero_hash
    tier_for_subtype tier_for_op tier_for is_symbol_start is_symbol normalize_symbol text_le
    derive_asset_id leaf_hash salt_leaf combine_hashes fold_proof verify_proof span_digits
    strip_plus fraction_of match_decimal trim_zeros starts_with pad_start split_at exponent_of
    place_point expand_exponent decimal_string amount_text scale_raw read_decimal to_raw
    format_digits format_raw names_an_asset rounds_to_zero positive_amount amount_of normalize_stack
    stacks strategy_for sink_policy sink_for define_recipe define_recipes is_recipe with_amount
    symbol_target id_target describe_ref needs_an_issuer resolve_stack spendable_raw sum_locked
    locked_raw format check_transferable check_swappable check_requirements check_affordable
    plan_one_grant plan_grants plan_grant plan_one_burn plan_one_payment plan_burns plan_payments
    plan_sink raw_terms_match exact_hashes offers_in matching_offers acceptable_by terms_match
    check_backing plan_swap plan_exchange moving_steps plan_by is_atomic resolve_all plan_for
    build_plan assert_runnable
gold_issued = refl

check_swappable-require_swappable_example :
    ((check_swappable (gold_stack (toy_key 9)) (toy_address 2) (toy_address 3) ≡ [])
      ↔ (require_swappable (some gold) (toy_address 2) (some (toy_address 3)) ≡ ok tt))
    × ((check_swappable (gold_stack (toy_key 9)) (toy_address 2) (toy_address 3) ≡ []) ↔ (
        (require_swappable (some gold) (toy_address 2) none ≡ ok tt)
        ⊎ ((gold.transfer ≡ issuer_only) × ((toy_address 3 == gold.issuer) ≡ true))))
check_swappable-require_swappable_example =
    check_swappable-require_swappable (gold_stack (toy_key 9)) gold gold_told gold_issued
      (toy_address 2) (toy_address 3)

over_cap-require_headroom_example :
    (over_cap (gold_stack (toy_key 9)) ≡ false) ↔ (require_headroom gold 5 ≡ ok tt)
over_cap-require_headroom_example =
    over_cap-require_headroom (gold_stack (toy_key 9)) gold gold_told

abbrev rich_node : Node
rich_node = record {
  asset_info = λ id. none;
  asset_by_symbol = λ issuer symbol. none;
  account_info = λ holder. some 50;
  holder_balance = λ id holder. 50;
  account_swaps = λ holder. [];
  swap_offer = λ hash. none;
}

abbrev issuing : PlanContext
issuing = record {
  node = rich_node;
  is_issuer = true;
  address = toy_address 1;
  offers = λ from given want. [];
}

grants_ok :
    (plan_grants rich_node (toy_address 1) (toy_address 2) (gold_stack (toy_key 9) ∷ [])).problems
    ≡ []
unfolding list_beq lookup insert erase mem add remove upper_unit upper is_space trim_start trim
    utf8_unit utf8_point utf8 is_digit decimal_from is_decimal digits_before decimal_text
    is_hex_digit is_hex hex_value pairs_to_bytes hex_to_bytes hex_digit bytes_to_digits bytes_to_hex
    bytes_below bigint_to_bytes index_of decode_base32 bigint_to_fixed_bytes address_from_public_key
    checksum_of public_key_from_address assert_address null_representative zero_hash
    tier_for_subtype tier_for_op tier_for is_symbol_start is_symbol normalize_symbol text_le
    derive_asset_id leaf_hash salt_leaf combine_hashes fold_proof verify_proof span_digits
    strip_plus fraction_of match_decimal trim_zeros starts_with pad_start split_at exponent_of
    place_point expand_exponent decimal_string amount_text scale_raw read_decimal to_raw
    format_digits format_raw names_an_asset rounds_to_zero positive_amount amount_of normalize_stack
    stacks strategy_for sink_policy sink_for define_recipe define_recipes is_recipe with_amount
    symbol_target id_target describe_ref needs_an_issuer resolve_stack spendable_raw sum_locked
    locked_raw format check_transferable check_swappable check_requirements check_affordable
    plan_one_grant plan_grants plan_grant plan_one_burn plan_one_payment plan_burns plan_payments
    plan_sink raw_terms_match exact_hashes offers_in matching_offers acceptable_by terms_match
    check_backing plan_swap plan_exchange moving_steps plan_by is_atomic resolve_all plan_for
    build_plan assert_runnable encode
grants_ok = refl

plan_grants-EachCovered_example :
    EachCovered rich_node
      (toy_address 1)
      (toy_address 2)
      (gold_stack (toy_key 9) ∷ [])
      ((plan_grants rich_node (toy_address 1) (toy_address 2) (gold_stack (toy_key 9) ∷ [])).steps)
plan_grants-EachCovered_example =
    plan_grants-EachCovered rich_node (toy_address 1) (toy_address 2) (gold_stack (toy_key 9) ∷ [])
      grants_ok

abbrev shop_node : Node
shop_node = record {
  asset_info = λ id. some (record {
    id = id;
    issuer = toy_address 1;
    name = text "thing";
    symbol = text "THING";
    decimals = 1;
    transfer = issuer_only;
    max_supply = none;
    circulating = 60;
  });
  asset_by_symbol = λ issuer symbol. none;
  account_info = λ holder. some 50;
  holder_balance = λ id holder. 50;
  account_swaps = λ holder. [];
  swap_offer = λ hash. none;
}

abbrev selling : PlanContext
selling = record {
  node = shop_node;
  is_issuer = true;
  address = toy_address 1;
  offers = λ from given want. [];
}

abbrev for_player : PlanOptions
for_player = record { player = some (toy_address 2); issuer = none }

abbrev shop_plan : Plan
shop_plan = plan_for ⦃c = toy⦄ selling shop (toy_address 2) (some (toy_address 1))

shop_plan_ok : build_plan ⦃c = toy⦄ selling shop for_player ≡ ok shop_plan
unfolding list_beq lookup insert erase mem add remove upper_unit upper is_space trim_start trim
    utf8_unit utf8_point utf8 is_digit decimal_from is_decimal digits_before decimal_text
    is_hex_digit is_hex hex_value pairs_to_bytes hex_to_bytes hex_digit bytes_to_digits bytes_to_hex
    bytes_below bigint_to_bytes index_of decode_base32 bigint_to_fixed_bytes address_from_public_key
    checksum_of public_key_from_address assert_address null_representative zero_hash
    tier_for_subtype tier_for_op tier_for is_symbol_start is_symbol normalize_symbol text_le
    derive_asset_id leaf_hash salt_leaf combine_hashes fold_proof verify_proof span_digits
    strip_plus fraction_of match_decimal trim_zeros starts_with pad_start split_at exponent_of
    place_point expand_exponent decimal_string amount_text scale_raw read_decimal to_raw
    format_digits format_raw names_an_asset rounds_to_zero positive_amount amount_of normalize_stack
    stacks strategy_for sink_policy sink_for define_recipe define_recipes is_recipe with_amount
    symbol_target id_target describe_ref needs_an_issuer resolve_stack spendable_raw sum_locked
    locked_raw format check_transferable check_swappable check_requirements check_affordable
    plan_one_grant plan_grants plan_grant plan_one_burn plan_one_payment plan_burns plan_payments
    plan_sink raw_terms_match exact_hashes offers_in matching_offers acceptable_by terms_match
    check_backing plan_swap plan_exchange moving_steps plan_by is_atomic resolve_all plan_for
    build_plan assert_runnable shop encode
shop_plan_ok = refl

shop_plan_atomic : shop_plan.atomic ≡ true
unfolding list_beq lookup insert erase mem add remove upper_unit upper is_space trim_start trim
    utf8_unit utf8_point utf8 is_digit decimal_from is_decimal digits_before decimal_text
    is_hex_digit is_hex hex_value pairs_to_bytes hex_to_bytes hex_digit bytes_to_digits bytes_to_hex
    bytes_below bigint_to_bytes index_of decode_base32 bigint_to_fixed_bytes address_from_public_key
    checksum_of public_key_from_address assert_address null_representative zero_hash
    tier_for_subtype tier_for_op tier_for is_symbol_start is_symbol normalize_symbol text_le
    derive_asset_id leaf_hash salt_leaf combine_hashes fold_proof verify_proof span_digits
    strip_plus fraction_of match_decimal trim_zeros starts_with pad_start split_at exponent_of
    place_point expand_exponent decimal_string amount_text scale_raw read_decimal to_raw
    format_digits format_raw names_an_asset rounds_to_zero positive_amount amount_of normalize_stack
    stacks strategy_for sink_policy sink_for define_recipe define_recipes is_recipe with_amount
    symbol_target id_target describe_ref needs_an_issuer resolve_stack spendable_raw sum_locked
    locked_raw format check_transferable check_swappable check_requirements check_affordable
    plan_one_grant plan_grants plan_grant plan_one_burn plan_one_payment plan_burns plan_payments
    plan_sink raw_terms_match exact_hashes offers_in matching_offers acceptable_by terms_match
    check_backing plan_swap plan_exchange moving_steps plan_by is_atomic resolve_all plan_for
    build_plan assert_runnable shop encode
shop_plan_atomic = refl

build_plan-atomic_example : moving_steps shop_plan.steps ≡ 1
build_plan-atomic_example =
    build_plan-atomic ⦃c = toy⦄ selling shop for_player shop_plan shop_plan_ok shop_plan_atomic

-- ===== src/Tests/Swaps.antt =====
-- A page of offers as a node sends it.
use kei_transaction.Common.Tests.{◌≤◌, ◌≡◌, refl, true, some, List, []}
use kei_transaction.Common.Lists.{length}
use kei_transaction.Common.Eq.{list_beq, text_eq}
use kei_transaction.Core.Errors.{Result, ok, err}
use kei_transaction.Core.Swaps.Rows.{OwnRow, AllRows, parse_account_swaps-own}
use kei_transaction.Ledger.Reads.{SwapOffer}
use kei_transaction.Ledger.State.{pending}
use kei_transaction.Tests.{toy, toy_key, toy_address, encode}
use kei_transaction.Dict.{lookup, insert, erase, mem, add, remove}
use kei_transaction.Js.Text.{
  text, upper_unit, upper, is_space, trim_start, trim, utf8_unit, utf8_point, utf8,
}
use kei_transaction.Js.Number.{
  whole, is_digit, decimal_from, is_decimal, digits_before, decimal_text,
}
use kei_transaction.Core.Hex.{
  is_hex_digit, is_hex, hex_value, pairs_to_bytes, hex_to_bytes, hex_digit, bytes_to_digits,
  bytes_to_hex, bytes_below, bigint_to_bytes,
}
use kei_transaction.Core.Address.{
  index_of, decode_base32, bigint_to_fixed_bytes, address_from_public_key, checksum_of,
  public_key_from_address, assert_address, null_representative,
}
use kei_transaction.Core.Blocks.{
  zero_hash, tier_for_subtype, tier_for_op, tier_for, is_symbol_start, is_symbol, normalize_symbol,
}
use kei_transaction.Core.Merkle.{
  text_le, derive_asset_id, leaf_hash, salt_leaf, combine_hashes, fold_proof, verify_proof,
}
use kei_transaction.Core.Amount.Raw.{
  span_digits, strip_plus, fraction_of, match_decimal, trim_zeros, starts_with, pad_start, split_at,
  exponent_of, place_point, expand_exponent, decimal_string, amount_text, scale_raw, read_decimal,
  to_raw, format_digits, format_raw,
}
use kei_transaction.Js.Value.{
  Value, null, string, number, array, object, Items, no_item, item_then, Fields, no_field,
  field_then, count_items,
}
use kei_transaction.Core.Swaps.{
  field_of, hex_field, is_raw, amount_field, whole_field, state_field, settles_as, is_address,
  address_field, read_row, parse_swap_offer, envelope_field, read_info, parse_swap_info, parse_rows,
  read_page, parse_account_swaps,
}

abbrev row : Fields
row = field_then (text "hash") (string (toy_key 1)) (
    field_then (text "from") (string (toy_address 1)) (
      field_then (text "asset") (string (toy_key 8)) (
        field_then (text "amount") (string (text "5")) (
          field_then (text "wantAsset") (string (toy_key 9)) (
            field_then (text "wantAmount") (string (text "70")) (
              field_then (text "counterparty") null (
                field_then (text "expiresAt") (number (whole 1_700_000_000_000)) (
                  field_then (text "state") (string (text "open")) (
                    field_then (text "settledBy") null (
                      field_then (text "acceptedBy") null (
                        field_then (text "height") (number (whole 3)) (
                          field_then (text "seenAt") (number (whole 12))
                            (field_then (text "settledAt") null no_field)))))))))))))

abbrev page : Items
page = item_then (object true row) no_item

abbrev answer : Value
answer = object true (field_then (text "offers") (array page) no_field)

abbrev from_ok : {A : Type 0} → A → Result A → A
from_ok default (ok a) = a
from_ok default (err _) = default

abbrev rows : List SwapOffer
unfolding list_beq lookup insert erase mem add remove upper_unit upper is_space trim_start trim
    utf8_unit utf8_point utf8 is_digit decimal_from is_decimal digits_before decimal_text
    is_hex_digit is_hex hex_value pairs_to_bytes hex_to_bytes hex_digit bytes_to_digits bytes_to_hex
    bytes_below bigint_to_bytes index_of decode_base32 bigint_to_fixed_bytes address_from_public_key
    checksum_of public_key_from_address assert_address null_representative zero_hash
    tier_for_subtype tier_for_op tier_for is_symbol_start is_symbol normalize_symbol text_le
    derive_asset_id leaf_hash salt_leaf combine_hashes fold_proof verify_proof span_digits
    strip_plus fraction_of match_decimal trim_zeros starts_with pad_start split_at exponent_of
    place_point expand_exponent decimal_string amount_text scale_raw read_decimal to_raw
    format_digits format_raw count_items field_of hex_field is_raw amount_field whole_field
    state_field settles_as is_address address_field read_row parse_swap_offer envelope_field
    read_info parse_swap_info parse_rows read_page parse_account_swaps
rows = from_ok [] (parse_account_swaps ⦃c = toy⦄ answer (toy_address 1) 50 (some pending))

rows_ok : parse_account_swaps ⦃c = toy⦄ answer (toy_address 1) 50 (some pending) ≡ ok rows
unfolding list_beq lookup insert erase mem add remove upper_unit upper is_space trim_start trim
    utf8_unit utf8_point utf8 is_digit decimal_from is_decimal digits_before decimal_text
    is_hex_digit is_hex hex_value pairs_to_bytes hex_to_bytes hex_digit bytes_to_digits bytes_to_hex
    bytes_below bigint_to_bytes index_of decode_base32 bigint_to_fixed_bytes address_from_public_key
    checksum_of public_key_from_address assert_address null_representative zero_hash
    tier_for_subtype tier_for_op tier_for is_symbol_start is_symbol normalize_symbol text_le
    derive_asset_id leaf_hash salt_leaf combine_hashes fold_proof verify_proof span_digits
    strip_plus fraction_of match_decimal trim_zeros starts_with pad_start split_at exponent_of
    place_point expand_exponent decimal_string amount_text scale_raw read_decimal to_raw
    format_digits format_raw count_items field_of hex_field is_raw amount_field whole_field
    state_field settles_as is_address address_field read_row parse_swap_offer envelope_field
    read_info parse_swap_info parse_rows read_page parse_account_swaps rows encode
rows_ok = refl

parse_account_swaps-own_example :
    (items : Items) × (envelope_field ⦃c = toy⦄ answer (text "offers") ≡ ok (array items))
    × (length rows ≡ count_items items)
    × (length rows ≤ 50)
    × AllRows (OwnRow (toy_address 1) (some pending)) rows
parse_account_swaps-own_example =
    parse_account_swaps-own ⦃c = toy⦄ answer (toy_address 1) 50 (some pending) rows rows_ok

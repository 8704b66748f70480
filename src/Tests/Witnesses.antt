-- ===== src/Tests/Witnesses.antt =====
-- Runs of the ledger on concrete blocks, and each theorem at one of them.

use kei_transaction.Ledger.Guards.Decimal.{parse_raw-decimal_text}
use kei_transaction.Dict.{lookup, insert, erase, mem, add, remove}
use kei_transaction.Js.Text.{text, upper_unit, upper, is_space, trim_start, trim, utf8_unit, utf8}
use kei_transaction.Js.Number.{is_digit, decimal_from, is_decimal, digits_before, decimal_text}
use kei_transaction.Core.Hex.{
  is_hex_digit, is_hex, hex_value, pairs_to_bytes, hex_to_bytes, hex_digit, bytes_to_digits,
  bytes_to_hex, bytes_below, bigint_to_bytes,
}
use kei_transaction.Core.Blocks.{
  zero_hash, tier_for_subtype, tier_for_op, tier_for, is_symbol_start, is_symbol, normalize_symbol,
}
use kei_transaction.Core.Amount.{issuance_burn}
use kei_transaction.Core.Crypto.{hash_block}
use kei_transaction.Core.Address.{
  index_of, decode_base32, bigint_to_fixed_bytes, address_from_public_key, checksum_of,
  public_key_from_address, assert_address, null_representative,
}
use kei_transaction.Core.Work.{little_endian, work_root, work_value, meets_threshold}
use kei_transaction.Ledger.Guards.{
  parse_raw, require_positive, require_delta, require_asset, require_headroom,
  enforce_transfer_policy, require_credit, held, require_debit, require_receivable_any_asset,
  require_receivable, swap_asset, require_swappable, require_lock, require_open_lock,
}
use kei_transaction.Ledger.Commit.{
  notify, remove_from_index, add_to_index, commit_credit, commit_debit, create_receivable,
  consume_receivable, set_circulating, set_lock, key_of, stored_account, commit_block,
}
use kei_transaction.Ledger.StateOps.{
  apply_send, apply_receive, apply_change, apply_subtype, apply_state,
}
use kei_transaction.Ledger.Process.{
  kei_balance, check_kei, apply_op, apply_asset, apply_body, validate_envelope, admit, settle,
  process,
}
use kei_transaction.Core.Merkle.{
  text_le, derive_asset_id, leaf_hash, salt_leaf, combine_hashes, fold_proof, verify_proof,
}
use kei_transaction.Ledger.AssetOps.{
  good_count, apply_mint, apply_burn, apply_transfer, apply_asset_receive, apply_commit,
  apply_commit_close, apply_claim,
}
use kei_transaction.Ledger.IssueOps.{
  transfer_policy, swap_policy, good_decimals, parse_max_supply, check_issue_burn, record_issue,
  apply_issue,
}
use kei_transaction.Ledger.SwapOps.{
  good_expiry, lock_asset, pay_leg, debit_leg, credit_leg, refund_leg, add_lock, apply_swap_offer,
  apply_swap_accept, apply_swap_cancel,
}
use kei_transaction.Ledger.Genesis.{allocation_kei, sum_allocations, seat, seat_all, build_genesis}
use kei_transaction.Common.Tests.{
  ◌≤◌, ◌≡◌, ◌⊎◌, inl, refl, ap, true, false, none, some, [], ℕ, ◌+◌, arith,
}
use kei_transaction.Common.Eq.{list_beq, pair_beq, text_eq, ◌==◌}
use kei_transaction.Common.Lists.{length, replicate}
use kei_transaction.Core.Errors.{ok}
use kei_transaction.Core.Amount.{kei_total_supply}
use kei_transaction.Core.Blocks.{
  Block, state, other_subtype, account_of, previous_of, balance_of, has_declared_subtype,
}
use kei_transaction.Ledger.State.{Ledger, AssetRecord}
use kei_transaction.Ledger.Effect.{IsValid}
use kei_transaction.Ledger.Shape.{HasBlock}
use kei_transaction.Ledger.Supply.{IsBalanced, kei_total}
use kei_transaction.Ledger.Conservation.{process_conserves, process-other_subtype}
use kei_transaction.Ledger.Genesis.Supply.{genesis_supply}
use kei_transaction.Ledger.Reach.{Run-IsValid, Run, start, next, AllDeclared}
use kei_transaction.Ledger.Reach.Supply.{reachable_supply}
use kei_transaction.Ledger.Reach.Assets.{asset_permanent, reachable_capped}
use kei_transaction.Ledger.Reach.Swaps.{settles, settles_once}
use kei_transaction.Ledger.Reach.Claims.{claims, claims_once}
use kei_transaction.Ledger.Trace.{IsNext}
use kei_transaction.Dict.Sum.{sum_of}
use kei_transaction.Ledger.Reads.{weights}
use kei_transaction.Ledger.Reads.Weights.{weight, voting_balance, weights_total}
use kei_transaction.Ledger.Trace.Assets.{SameAsset}
use kei_transaction.Ledger.Chain.{Advanced, process_advances, no_fork, process_again}
use kei_transaction.Tests.{
  toy_address, coin, root, issue_block, publish_block, claim_block, offer_block, accept_block, s1,
  s2, s3, s4, s5, genesis, after, hash_after, asset_block, account_at, encode, toy, toy_keys, easy,
  toy-NoZeroDigest, genesis_ok, genesis_apart, asset_in, is_ok, is_ok-eq,
}

accepted :
    (is_ok (process ⦃c = toy⦄ 0 issue_block genesis) ≡ true)
    × (is_ok (process ⦃c = toy⦄ 0 publish_block s1) ≡ true)
    × (is_ok (process ⦃c = toy⦄ 0 claim_block s2) ≡ true)
    × (is_ok (process ⦃c = toy⦄ 0 offer_block s3) ≡ true)
    × (is_ok (process ⦃c = toy⦄ 0 accept_block s4) ≡ true)
unfolding lookup insert erase mem add remove upper_unit upper is_space trim_start trim utf8_unit
    utf8 is_digit decimal_from is_decimal digits_before decimal_text is_hex_digit is_hex hex_value
    pairs_to_bytes hex_to_bytes hex_digit bytes_to_digits bytes_to_hex bytes_below bigint_to_bytes
    zero_hash tier_for_subtype tier_for_op tier_for is_symbol_start is_symbol normalize_symbol
    issuance_burn hash_block index_of decode_base32 bigint_to_fixed_bytes address_from_public_key
    checksum_of public_key_from_address assert_address null_representative little_endian work_root
    work_value meets_threshold parse_raw require_positive require_delta require_asset
    require_headroom enforce_transfer_policy require_credit held require_debit
    require_receivable_any_asset require_receivable swap_asset require_swappable require_lock
    require_open_lock notify remove_from_index add_to_index commit_credit commit_debit
    create_receivable consume_receivable set_circulating set_lock key_of stored_account commit_block
    apply_send apply_receive apply_change apply_subtype apply_state kei_balance check_kei apply_op
    apply_asset apply_body validate_envelope admit settle process text_le derive_asset_id leaf_hash
    salt_leaf combine_hashes fold_proof verify_proof good_count apply_mint apply_burn apply_transfer
    apply_asset_receive apply_commit apply_commit_close apply_claim transfer_policy swap_policy
    good_decimals parse_max_supply check_issue_burn record_issue apply_issue good_expiry lock_asset
    pay_leg debit_leg credit_leg refund_leg add_lock apply_swap_offer apply_swap_accept
    apply_swap_cancel allocation_kei sum_allocations seat seat_all build_genesis coin root
    issue_block publish_block claim_block offer_block accept_block s1 s2 s3 s4 s5 genesis after
    hash_after asset_block account_at encode list_beq pair_beq
accepted = (refl, refl, refl, refl, refl)

accepted_as :
    (b : Block) (s : Ledger)
    → is_ok (process ⦃c = toy⦄ 0 b s) ≡ true
    → process ⦃c = toy⦄ 0 b s ≡ ok (hash_after b s, after b s)
unfolding after hash_after
accepted_as b s e = is_ok-eq s (process ⦃c = toy⦄ 0 b s) e

issue_ok : process ⦃c = toy⦄ 0 issue_block genesis ≡ ok (hash_after issue_block genesis, s1)
unfolding s1
issue_ok = accepted_as issue_block genesis accepted.0

publish_ok : process ⦃c = toy⦄ 0 publish_block s1 ≡ ok (hash_after publish_block s1, s2)
unfolding s2
publish_ok = accepted_as publish_block s1 accepted.1

claim_ok : process ⦃c = toy⦄ 0 claim_block s2 ≡ ok (hash_after claim_block s2, s3)
unfolding s3
claim_ok = accepted_as claim_block s2 accepted.2

offer_ok : process ⦃c = toy⦄ 0 offer_block s3 ≡ ok (hash_after offer_block s3, s4)
unfolding s4
offer_ok = accepted_as offer_block s3 accepted.3

accept_ok : process ⦃c = toy⦄ 0 accept_block s4 ≡ ok (hash_after accept_block s4, s5)
unfolding s5
accept_ok = accepted_as accept_block s4 accepted.4

genesis_supply_example : IsValid genesis × (kei_total genesis ≡ kei_total_supply)
genesis_supply_example = genesis_supply ⦃c = toy⦄ toy_keys easy genesis genesis_apart genesis_ok

issue_declared : has_declared_subtype issue_block.body ≡ true
unfolding issue_block asset_block
issue_declared = refl

-- A state block of no declared subtype, which states a balance that the account never had.
odd_block : Block
unfolding genesis account_at
odd_block = record {
  body = state (record {
    subtype = other_subtype (text "mint");
    account = toy_address 2;
    previous = (account_at 2 genesis).frontier;
    representative = toy_address 2;
    balance = text "5";
    link = [];
    memo = none;
  });
  work = replicate 16 b'0';
  signature = replicate 128 b'0';
}

odd_accepted :
    (is_ok (process ⦃c = toy⦄ 0 odd_block genesis) ≡ true)
    × (lookup (hash_after odd_block genesis) genesis.blocks ≡ none)
unfolding lookup insert erase mem add remove upper_unit upper is_space trim_start trim utf8_unit
    utf8 is_digit decimal_from is_decimal digits_before decimal_text is_hex_digit is_hex hex_value
    pairs_to_bytes hex_to_bytes hex_digit bytes_to_digits bytes_to_hex bytes_below bigint_to_bytes
    zero_hash tier_for_subtype tier_for_op tier_for is_symbol_start is_symbol normalize_symbol
    issuance_burn hash_block index_of decode_base32 bigint_to_fixed_bytes address_from_public_key
    checksum_of public_key_from_address assert_address null_representative little_endian work_root
    work_value meets_threshold parse_raw require_positive require_delta require_asset
    require_headroom enforce_transfer_policy require_credit held require_debit
    require_receivable_any_asset require_receivable swap_asset require_swappable require_lock
    require_open_lock notify remove_from_index add_to_index commit_credit commit_debit
    create_receivable consume_receivable set_circulating set_lock key_of stored_account commit_block
    apply_send apply_receive apply_change apply_subtype apply_state kei_balance check_kei apply_op
    apply_asset apply_body validate_envelope admit settle process text_le derive_asset_id leaf_hash
    salt_leaf combine_hashes fold_proof verify_proof good_count apply_mint apply_burn apply_transfer
    apply_asset_receive apply_commit apply_commit_close apply_claim transfer_policy swap_policy
    good_decimals parse_max_supply check_issue_burn record_issue apply_issue good_expiry lock_asset
    pay_leg debit_leg credit_leg refund_leg add_lock apply_swap_offer apply_swap_accept
    apply_swap_cancel allocation_kei sum_allocations seat seat_all build_genesis coin root
    issue_block publish_block claim_block offer_block accept_block s1 s2 s3 s4 s5 genesis after
    hash_after asset_block account_at encode list_beq pair_beq odd_block
odd_accepted = (refl, refl)

odd_undeclared : has_declared_subtype odd_block.body ≡ false
unfolding odd_block
odd_undeclared = refl

process-other_subtype_example :
    (new : ℕ) × (parse_raw (balance_of odd_block.body) ≡ ok new)
    × (kei_total (after odd_block genesis) + kei_balance genesis (account_of odd_block.body)
        ≡ kei_total genesis + new)
process-other_subtype_example =
    process-other_subtype ⦃c = toy⦄ toy-NoZeroDigest genesis_supply_example.0 0 odd_block
      (hash_after odd_block genesis) odd_undeclared odd_accepted.1
      (accepted_as odd_block genesis odd_accepted.0)

process_conserves_example : IsValid s1 × (kei_total s1 ≡ kei_total genesis)
process_conserves_example =
    process_conserves ⦃c = toy⦄ toy-NoZeroDigest genesis_supply_example.0 0 issue_block
      (hash_after issue_block genesis) issue_declared issue_ok

up_to_s2 : Run ⦃c = toy⦄ genesis s2
up_to_s2 =
    next 0 publish_block (hash_after publish_block s1)
      (next 0 issue_block (hash_after issue_block genesis) start issue_ok) publish_ok

up_to_s4 : Run ⦃c = toy⦄ genesis s4
up_to_s4 =
    next 0 offer_block (hash_after offer_block s3)
      (next 0 claim_block (hash_after claim_block s2) up_to_s2 claim_ok) offer_ok

s4_declared : AllDeclared ⦃c = toy⦄ up_to_s4
unfolding issue_block publish_block claim_block offer_block asset_block up_to_s2 up_to_s4
s4_declared = (refl, (refl, (refl, (refl, tt))))

reachable_supply_example : IsBalanced s4 × (kei_total s4 ≡ kei_total_supply)
reachable_supply_example =
    reachable_supply ⦃c = toy⦄ toy-NoZeroDigest toy_keys easy genesis s4 up_to_s4 genesis_apart
      genesis_ok s4_declared

process_advances_example :
    (s1 ≡ genesis)
    ⊎ (IsNext genesis issue_block
        × Advanced genesis s1 issue_block (hash_after issue_block genesis))
process_advances_example =
    process_advances ⦃c = toy⦄ toy-NoZeroDigest genesis s1 0 issue_block
      (hash_after issue_block genesis) genesis_supply_example.0 issue_ok

process_again_example : process ⦃c = toy⦄ 9 issue_block s1 ≡ ok (hash_after issue_block genesis, s1)
process_again_example =
    process_again ⦃c = toy⦄ toy-NoZeroDigest genesis s1 0 9 issue_block
      (hash_after issue_block genesis) genesis_supply_example.0 issue_ok

-- The ledgers differ, and so do the hashes of a chain.
changed : (s1 ≡ genesis → ⊥) × (s3 ≡ s2 → ⊥) × (s5 ≡ s4 → ⊥)
unfolding lookup insert erase mem add remove upper_unit upper is_space trim_start trim utf8_unit
    utf8 is_digit decimal_from is_decimal digits_before decimal_text is_hex_digit is_hex hex_value
    pairs_to_bytes hex_to_bytes hex_digit bytes_to_digits bytes_to_hex bytes_below bigint_to_bytes
    zero_hash tier_for_subtype tier_for_op tier_for is_symbol_start is_symbol normalize_symbol
    issuance_burn hash_block index_of decode_base32 bigint_to_fixed_bytes address_from_public_key
    checksum_of public_key_from_address assert_address null_representative little_endian work_root
    work_value meets_threshold parse_raw require_positive require_delta require_asset
    require_headroom enforce_transfer_policy require_credit held require_debit
    require_receivable_any_asset require_receivable swap_asset require_swappable require_lock
    require_open_lock notify remove_from_index add_to_index commit_credit commit_debit
    create_receivable consume_receivable set_circulating set_lock key_of stored_account commit_block
    apply_send apply_receive apply_change apply_subtype apply_state kei_balance check_kei apply_op
    apply_asset apply_body validate_envelope admit settle process text_le derive_asset_id leaf_hash
    salt_leaf combine_hashes fold_proof verify_proof good_count apply_mint apply_burn apply_transfer
    apply_asset_receive apply_commit apply_commit_close apply_claim transfer_policy swap_policy
    good_decimals parse_max_supply check_issue_burn record_issue apply_issue good_expiry lock_asset
    pay_leg debit_leg credit_leg refund_leg add_lock apply_swap_offer apply_swap_accept
    apply_swap_cancel allocation_kei sum_allocations seat seat_all build_genesis coin root
    issue_block publish_block claim_block offer_block accept_block s1 s2 s3 s4 s5 genesis after
    hash_after asset_block account_at encode list_beq pair_beq
changed = (
  λ e. omega (arith, ap (λ (s : Ledger). length s.blocks) e),
  λ e. omega (arith, ap (λ (s : Ledger). length s.blocks) e),
  λ e. omega (arith, ap (λ (s : Ledger). length s.blocks) e),
)

differ : (hash_after issue_block genesis == previous_of issue_block.body) ≡ false
unfolding lookup insert erase mem add remove upper_unit upper is_space trim_start trim utf8_unit
    utf8 is_digit decimal_from is_decimal digits_before decimal_text is_hex_digit is_hex hex_value
    pairs_to_bytes hex_to_bytes hex_digit bytes_to_digits bytes_to_hex bytes_below bigint_to_bytes
    zero_hash tier_for_subtype tier_for_op tier_for is_symbol_start is_symbol normalize_symbol
    issuance_burn hash_block index_of decode_base32 bigint_to_fixed_bytes address_from_public_key
    checksum_of public_key_from_address assert_address null_representative little_endian work_root
    work_value meets_threshold parse_raw require_positive require_delta require_asset
    require_headroom enforce_transfer_policy require_credit held require_debit
    require_receivable_any_asset require_receivable swap_asset require_swappable require_lock
    require_open_lock notify remove_from_index add_to_index commit_credit commit_debit
    create_receivable consume_receivable set_circulating set_lock key_of stored_account commit_block
    apply_send apply_receive apply_change apply_subtype apply_state kei_balance check_kei apply_op
    apply_asset apply_body validate_envelope admit settle process text_le derive_asset_id leaf_hash
    salt_leaf combine_hashes fold_proof verify_proof good_count apply_mint apply_burn apply_transfer
    apply_asset_receive apply_commit apply_commit_close apply_claim transfer_policy swap_policy
    good_decimals parse_max_supply check_issue_burn record_issue apply_issue good_expiry lock_asset
    pay_leg debit_leg credit_leg refund_leg add_lock apply_swap_offer apply_swap_accept
    apply_swap_cancel allocation_kei sum_allocations seat seat_all build_genesis coin root
    issue_block publish_block claim_block offer_block accept_block s1 s2 s3 s4 s5 genesis after
    hash_after asset_block account_at encode list_beq pair_beq
differ = refl

issue_starts :
    HasBlock genesis (previous_of issue_block.body) ⊎ (previous_of issue_block.body ≡ zero_hash)
unfolding lookup insert erase mem add remove upper_unit upper is_space trim_start trim utf8_unit
    utf8 is_digit decimal_from is_decimal digits_before decimal_text is_hex_digit is_hex hex_value
    pairs_to_bytes hex_to_bytes hex_digit bytes_to_digits bytes_to_hex bytes_below bigint_to_bytes
    zero_hash tier_for_subtype tier_for_op tier_for is_symbol_start is_symbol normalize_symbol
    issuance_burn hash_block index_of decode_base32 bigint_to_fixed_bytes address_from_public_key
    checksum_of public_key_from_address assert_address null_representative little_endian work_root
    work_value meets_threshold parse_raw require_positive require_delta require_asset
    require_headroom enforce_transfer_policy require_credit held require_debit
    require_receivable_any_asset require_receivable swap_asset require_swappable require_lock
    require_open_lock notify remove_from_index add_to_index commit_credit commit_debit
    create_receivable consume_receivable set_circulating set_lock key_of stored_account commit_block
    apply_send apply_receive apply_change apply_subtype apply_state kei_balance check_kei apply_op
    apply_asset apply_body validate_envelope admit settle process text_le derive_asset_id leaf_hash
    salt_leaf combine_hashes fold_proof verify_proof good_count apply_mint apply_burn apply_transfer
    apply_asset_receive apply_commit apply_commit_close apply_claim transfer_policy swap_policy
    good_decimals parse_max_supply check_issue_burn record_issue apply_issue good_expiry lock_asset
    pay_leg debit_leg credit_leg refund_leg add_lock apply_swap_offer apply_swap_accept
    apply_swap_cancel allocation_kei sum_allocations seat seat_all build_genesis coin root
    issue_block publish_block claim_block offer_block accept_block s1 s2 s3 s4 s5 genesis after
    hash_after asset_block account_at encode list_beq pair_beq
issue_starts = inl refl

no_fork_example : s1 ≡ s1
no_fork_example =
    no_fork ⦃c = toy⦄ toy-NoZeroDigest genesis s1 s1 s1 0 9 issue_block issue_block
      (hash_after issue_block genesis) (hash_after issue_block genesis) genesis_supply_example.0
      issue_starts issue_ok changed.0 start refl refl process_again_example

abbrev gold : AssetRecord
unfolding lookup
gold = asset_in (lookup coin s1.assets)

gold_issued : lookup coin s1.assets ≡ some gold
unfolding lookup insert erase mem add remove upper_unit upper is_space trim_start trim utf8_unit
    utf8 is_digit decimal_from is_decimal digits_before decimal_text is_hex_digit is_hex hex_value
    pairs_to_bytes hex_to_bytes hex_digit bytes_to_digits bytes_to_hex bytes_below bigint_to_bytes
    zero_hash tier_for_subtype tier_for_op tier_for is_symbol_start is_symbol normalize_symbol
    issuance_burn hash_block index_of decode_base32 bigint_to_fixed_bytes address_from_public_key
    checksum_of public_key_from_address assert_address null_representative little_endian work_root
    work_value meets_threshold parse_raw require_positive require_delta require_asset
    require_headroom enforce_transfer_policy require_credit held require_debit
    require_receivable_any_asset require_receivable swap_asset require_swappable require_lock
    require_open_lock notify remove_from_index add_to_index commit_credit commit_debit
    create_receivable consume_receivable set_circulating set_lock key_of stored_account commit_block
    apply_send apply_receive apply_change apply_subtype apply_state kei_balance check_kei apply_op
    apply_asset apply_body validate_envelope admit settle process text_le derive_asset_id leaf_hash
    salt_leaf combine_hashes fold_proof verify_proof good_count apply_mint apply_burn apply_transfer
    apply_asset_receive apply_commit apply_commit_close apply_claim transfer_policy swap_policy
    good_decimals parse_max_supply check_issue_burn record_issue apply_issue good_expiry lock_asset
    pay_leg debit_leg credit_leg refund_leg add_lock apply_swap_offer apply_swap_accept
    apply_swap_cancel allocation_kei sum_allocations seat seat_all build_genesis coin root
    issue_block publish_block claim_block offer_block accept_block s1 s2 s3 s4 s5 genesis after
    hash_after asset_block account_at encode list_beq pair_beq gold
gold_issued = refl

on_from_s1 : Run ⦃c = toy⦄ s1 s4
on_from_s1 =
    next 0 offer_block (hash_after offer_block s3)
      (next 0 claim_block (hash_after claim_block s2)
        (next 0 publish_block (hash_after publish_block s1) start publish_ok) claim_ok)
      offer_ok

gold_capped : gold.max_supply ≡ some 100
unfolding lookup insert erase mem add remove upper_unit upper is_space trim_start trim utf8_unit
    utf8 is_digit decimal_from is_decimal digits_before decimal_text is_hex_digit is_hex hex_value
    pairs_to_bytes hex_to_bytes hex_digit bytes_to_digits bytes_to_hex bytes_below bigint_to_bytes
    zero_hash tier_for_subtype tier_for_op tier_for is_symbol_start is_symbol normalize_symbol
    issuance_burn hash_block index_of decode_base32 bigint_to_fixed_bytes address_from_public_key
    checksum_of public_key_from_address assert_address null_representative little_endian work_root
    work_value meets_threshold parse_raw require_positive require_delta require_asset
    require_headroom enforce_transfer_policy require_credit held require_debit
    require_receivable_any_asset require_receivable swap_asset require_swappable require_lock
    require_open_lock notify remove_from_index add_to_index commit_credit commit_debit
    create_receivable consume_receivable set_circulating set_lock key_of stored_account commit_block
    apply_send apply_receive apply_change apply_subtype apply_state kei_balance check_kei apply_op
    apply_asset apply_body validate_envelope admit settle process text_le derive_asset_id leaf_hash
    salt_leaf combine_hashes fold_proof verify_proof good_count apply_mint apply_burn apply_transfer
    apply_asset_receive apply_commit apply_commit_close apply_claim transfer_policy swap_policy
    good_decimals parse_max_supply check_issue_burn record_issue apply_issue good_expiry lock_asset
    pay_leg debit_leg credit_leg refund_leg add_lock apply_swap_offer apply_swap_accept
    apply_swap_cancel allocation_kei sum_allocations seat seat_all build_genesis coin root
    issue_block publish_block claim_block offer_block accept_block s1 s2 s3 s4 s5 genesis after
    hash_after asset_block account_at encode list_beq pair_beq gold
gold_capped = refl

asset_permanent_example : (b : AssetRecord) × (lookup coin s4.assets ≡ some b) × SameAsset gold b
asset_permanent_example =
    asset_permanent ⦃c = toy⦄ toy-NoZeroDigest s1 s4 coin gold process_conserves_example.0
      on_from_s1 gold_issued

reachable_capped_example : gold.circulating ≤ 100
reachable_capped_example =
    reachable_capped ⦃c = toy⦄ toy-NoZeroDigest toy_keys easy s1 genesis_apart
      (genesis, genesis_ok, next 0 issue_block (hash_after issue_block genesis) start issue_ok) coin
      gold 100 gold_issued gold_capped

s2-IsValid : IsValid s2
s2-IsValid = Run-IsValid ⦃c = toy⦄ toy-NoZeroDigest up_to_s2 genesis_supply_example.0

s4-IsValid : IsValid s4
s4-IsValid = Run-IsValid ⦃c = toy⦄ toy-NoZeroDigest up_to_s4 genesis_supply_example.0

claims_claim : claims claim_block.body ≡ some (toy_address 3, upper root)
unfolding claim_block asset_block
claims_claim = refl

settles_accept : settles accept_block.body ≡ some (upper (hash_after offer_block s3))
unfolding accept_block asset_block
settles_accept = refl

claims_once_example : s3 ≡ s3
claims_once_example =
    claims_once ⦃c = toy⦄ toy-NoZeroDigest s2 s3 s3 s3 0 9 claim_block claim_block
      (hash_after claim_block s2) (hash_after claim_block s2) (toy_address 3, upper root) s2-IsValid
      claims_claim claims_claim claim_ok changed.1 start
      (process_again ⦃c = toy⦄ toy-NoZeroDigest s2 s3 0 9 claim_block (hash_after claim_block s2)
        s2-IsValid claim_ok)

weights_total_example :
    sum_of weight (weights s5 ⦃c = toy⦄) ≡ sum_of (voting_balance ⦃c = toy⦄ s5) s5.accounts
weights_total_example = weights_total ⦃c = toy⦄ s5

settles_once_example : s5 ≡ s5
settles_once_example =
    settles_once ⦃c = toy⦄ toy-NoZeroDigest s4 s5 s5 s5 0 9 accept_block accept_block
      (hash_after accept_block s4) (hash_after accept_block s4) (upper (hash_after offer_block s3))
      s4-IsValid settles_accept settles_accept accept_ok changed.2 start
      (process_again ⦃c = toy⦄ toy-NoZeroDigest s4 s5 0 9 accept_block (hash_after accept_block s4)
        s4-IsValid accept_ok)

parse_raw-decimal_text_example : parse_raw (decimal_text 1_234_567) ≡ ok 1_234_567
parse_raw-decimal_text_example = parse_raw-decimal_text 1_234_567

-- ===== src/Tests.antt =====
-- A small instance of the cryptography, and the ledgers that some blocks make of genesis.
pub mod Witnesses
pub mod Claims
pub mod Plans
pub mod Batch
pub mod Swaps
use mathlib.Core.List.{reverse}
use kei_transaction.Ledger.StateOps.{
  apply_send, apply_receive, apply_change, apply_subtype, apply_state,
}
use kei_transaction.Ledger.Commit.{
  notify, remove_from_index, add_to_index, commit_credit, commit_debit, create_receivable,
  consume_receivable, set_circulating, set_lock, key_of, stored_account, commit_block,
}
use kei_transaction.Ledger.Guards.{
  parse_raw, require_positive, require_delta, require_asset, require_headroom,
  enforce_transfer_policy, require_credit, held, require_debit, require_receivable_any_asset,
  require_receivable, swap_asset, require_swappable, require_lock, require_open_lock,
}
use kei_transaction.Core.Merkle.{derive_asset_id, leaf_hash}
use kei_transaction.Core.Work.{little_endian, work_root, work_value, meets_threshold}
use kei_transaction.Dict.{lookup, insert, erase, mem, add, remove}
use kei_transaction.Common.Tests.{
  false, Bool, ap, arith, ℕ, zero, suc, ◌+◌, ◌-◌, ◌*◌, ◌/◌, ◌%◌, ◌≡◌, refl, true, Option, none,
  some, List, [], ◌∷◌, ◌++◌, ltb,
}
use kei_transaction.Common.Eq.{list_beq, ◌==◌, text_eq, list_beq_iff}
use kei_transaction.Core.Amount.{kei_unit, kei_total_supply}
use kei_transaction.Common.Lists.{take, length, get_elem?, replicate}
use kei_transaction.Js.Text.{upper, Text, text, upper_unit}
use kei_transaction.Js.Number.{
  whole, decimal_text, is_digit, decimal_from, is_decimal, digits_before,
}
use kei_transaction.Core.Errors.{Code, Result, ok, err}
use kei_transaction.Core.Hex.{
  hex_digit, bytes_to_digits, bytes_to_hex, pairs_to_bytes, is_hex_digit, is_hex, hex_value,
  hex_to_bytes, bytes_below,
}
use kei_transaction.Core.Blocks.{
  two_way, anyone, commit, issue, asset, AssetOp, claim, swap_offer, swap_accept, Block, BlockBody,
  StateBlockBody, StateSubtype, open_chain, send, receive, state, account_of, previous_of,
  balance_of, zero_hash, tier_for_subtype, tier_for_op, tier_for,
}
use kei_transaction.Core.Crypto.{Crypto, NoZeroDigest, hash_block}
use kei_transaction.Core.Address.{
  alphabet, index_of, decode_base32, bigint_to_fixed_bytes, address_from_public_key, checksum_of,
  public_key_from_address, assert_address, null_representative,
}
use kei_transaction.Ledger.State.{AssetRecord, SwapState, LedgerAccount, Ledger, Thresholds}
use kei_transaction.Ledger.Effect.{IsValid}
use kei_transaction.Ledger.Supply.{kei_total}
use kei_transaction.Ledger.Conservation.{process_conserves}
use kei_transaction.Ledger.Genesis.Supply.{AllApart, genesis_supply}
use kei_transaction.Ledger.Process.{
  apply_body, settle, validate_envelope, process, kei_balance, check_kei, apply_op, apply_asset,
  admit,
}
use kei_transaction.Ledger.Genesis.{
  seat, genesis_roles, seat_all, genesis_body, empty_ledger, GenesisRole, GenesisKey, reserve,
  grants, community, bounty, team, build_genesis, allocation_kei, sum_allocations,
}

abbrev pub sum_bytes : List ℕ → ℕ
sum_bytes [] = 0
sum_bytes (b ∷ bytes) = b + sum_bytes bytes

abbrev pub digest : List ℕ → ℕ → List ℕ
digest message size = 1 ∷ (sum_bytes message % 256) ∷ replicate (size - 2) 0

abbrev pub character : Option ℕ → ℕ
character none = 0
character (some c) = c

abbrev pub base32 : ℕ → ℕ → Text → Text
base32 zero value out = out
base32 (suc n) value out = base32 n (value / 32) (character (get_elem? alphabet (value % 32)) ∷ out)

abbrev pub value_of : ℕ → List ℕ → ℕ
value_of value [] = value
value_of value (b ∷ bytes) = value_of (value * 256 + b) bytes

abbrev pub encode : Text → Text → Text
unfolding pairs_to_bytes
encode public_key prefix =
    let bytes = pairs_to_bytes public_key in
    prefix ++ base32 52 (value_of 0 bytes) (base32 8 (value_of 0 (reverse (digest bytes 5))) [])

abbrev pub toy : Crypto
toy = record {
  blake2b = digest;
  encode_address = encode;
  verify_hash = λ hash signature public_key. true;
  preimage = λ body. ok (account_of body ++ previous_of body ++ balance_of body);
}

abbrev pub toy_key : ℕ → Text
toy_key n = replicate 63 b'0' ++ (b'0' + n) ∷ []

abbrev pub index : GenesisRole → ℕ
index reserve = 1
index grants = 2
index community = 3
index bounty = 4
index team = 5

abbrev pub toy_address : ℕ → Text
toy_address n = encode (toy_key n) (text "kei_")

abbrev pub toy_keys : GenesisRole → GenesisKey
toy_keys role = record { public_key = toy_key (index role); address = toy_address (index role) }

abbrev pub easy : Thresholds
easy = record { a = 0; b = 0; c = 0 }

abbrev pub ledger_of : Result Ledger → Ledger
ledger_of (ok s) = s
ledger_of (err _) = empty_ledger easy

abbrev pub next_of : Ledger → Result (Text × Ledger) → Ledger
next_of s (ok (_, t)) = t
next_of s (err _) = s

abbrev pub hash_of : Result Text → Text
hash_of (ok hash) = hash
hash_of (err _) = []

pub toy-NoZeroDigest : NoZeroDigest ⦃c = toy⦄
unfolding bytes_to_hex bytes_to_digits hex_digit upper zero_hash
toy-NoZeroDigest message e = omega (arith, ap (λ digits. sum_bytes (take 2 digits)) e)

abbrev pub genesis : Ledger
unfolding build_genesis
genesis = ledger_of (build_genesis ⦃c = toy⦄ toy_keys easy)

pub genesis_ok : build_genesis ⦃c = toy⦄ toy_keys easy ≡ ok genesis
unfolding build_genesis seat_all hash_block
genesis_ok = refl

abbrev pub is_ok : Result (Text × Ledger) → Bool
is_ok (ok _) = true
is_ok (err _) = false

abbrev pub hash_in : Result (Text × Ledger) → Text
hash_in (ok (hash, _)) = hash
hash_in (err _) = []

pub is_ok-eq :
    (s : Ledger) (r : Result (Text × Ledger)) → is_ok r ≡ true → r ≡ ok (hash_in r, next_of s r)
is_ok-eq s (ok (hash, t)) e = refl
is_ok-eq s (err _) e = cc

pub distinct : (a b : Text) → (a == b) ≡ false → a ≡ b → ⊥
distinct a b differ same = ground (arith, list_beq_iff a b)

apart : (i j : ℕ) → (toy_address i == toy_address j) ≡ false → toy_address i ≡ toy_address j → ⊥
apart i j = distinct (toy_address i) (toy_address j)

pub genesis_apart : AllApart ⦃c = toy⦄ toy_keys genesis_roles
unfolding list_beq encode
genesis_apart = (
  (apart 1 2 refl, (apart 1 3 refl, (apart 1 4 refl, (apart 1 5 refl, tt)))),
  (
    (apart 2 3 refl, (apart 2 4 refl, (apart 2 5 refl, tt))),
    ((apart 3 4 refl, (apart 3 5 refl, tt)), ((apart 4 5 refl, tt), (tt, tt))),
  ),
)

abbrev pub known_account : Option LedgerAccount → LedgerAccount
known_account (some account) = account
known_account none = record {
  address = [];
  public_key = [];
  frontier = [];
  height = 0;
  balance = 0;
  representative = [];
}

abbrev pub account_at : ℕ → Ledger → LedgerAccount
unfolding lookup
account_at n s = known_account (lookup (toy_address n) s.accounts)

-- The next asset block of an account, whose balance grows and shrinks by these amounts.
abbrev pub asset_block : ℕ → Ledger → ℕ → ℕ → AssetOp → Block
unfolding account_at decimal_text
asset_block n s gain loss op = record {
  body = asset (record {
    account = toy_address n;
    previous = (account_at n s).frontier;
    representative = toy_address n;
    balance = decimal_text ((account_at n s).balance + gain - loss);
    op = op;
  });
  work = replicate 16 b'0';
  signature = replicate 128 b'0';
}

abbrev pub after : Block → Ledger → Ledger
unfolding process
after b s = next_of s (process ⦃c = toy⦄ 0 b s)

abbrev pub hash_after : Block → Ledger → Text
unfolding process
hash_after b s = hash_in (process ⦃c = toy⦄ 0 b s)

abbrev pub coin : Text
unfolding derive_asset_id
coin = hash_of (derive_asset_id ⦃c = toy⦄ (toy_key 2) (text "GOLD"))

abbrev pub issue_block : Block
unfolding asset_block genesis
issue_block = asset_block 2 genesis 0 kei_unit (
    issue (record {
      name = text "Gold";
      symbol = text "GOLD";
      decimals = whole 0;
      max_supply = some (text "100");
      transfer = text "open";
      swap = text "two-way";
      metadata = record { description = none; image = none; kind = none };
    }))

abbrev pub s1 : Ledger
unfolding after issue_block genesis
s1 = after issue_block genesis

-- A commit of one leaf: sixty units to the third key.
abbrev pub root : Text
unfolding leaf_hash coin
root = hash_of (leaf_hash ⦃c = toy⦄ (toy_key 3) coin 60)

abbrev pub publish_block : Block
unfolding asset_block s1 root coin
publish_block =
    asset_block 2 s1 0 0
      (commit (record { root = root; asset = coin; count = whole 1; total = text "60" }))

abbrev pub s2 : Ledger
unfolding after publish_block s1
s2 = after publish_block s1

abbrev pub claim_block : Block
unfolding asset_block s2 root coin
claim_block =
    asset_block 3 s2 0 0
      (claim (record { root = root; asset = coin; amount = text "60"; proof = [] }))

abbrev pub s3 : Ledger
unfolding after claim_block s2
s3 = after claim_block s2

-- Ten units for seven raw Kei, and the other side.
abbrev pub offer_block : Block
unfolding asset_block s3 coin zero_hash
offer_block = asset_block 3 s3 0 0 (
    swap_offer (record {
      asset = coin;
      amount = text "10";
      want_asset = zero_hash;
      want_amount = text "7";
      counterparty = none;
      expires_at = none;
    }))

abbrev pub s4 : Ledger
unfolding after offer_block s3
s4 = after offer_block s3

abbrev pub accept_block : Block
unfolding asset_block s4 hash_after offer_block s3 zero_hash
accept_block = asset_block 2 s4 0 7 (
    swap_accept
      (record { offer = hash_after offer_block s3; asset = zero_hash; amount = text "7" }))

abbrev pub s5 : Ledger
unfolding after accept_block s4
s5 = after accept_block s4

abbrev pub no_asset : AssetRecord
no_asset = record {
  id = [];
  issuer = [];
  name = [];
  symbol = [];
  decimals = whole 0;
  max_supply = none;
  transfer = anyone;
  swap = two_way;
  description = none;
  image = none;
  kind = none;
  circulating = 0;
}

abbrev pub asset_in : Option AssetRecord → AssetRecord
asset_in none = no_asset
asset_in (some found) = found

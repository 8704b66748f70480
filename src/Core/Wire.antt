-- ===== src/Core/Wire.antt =====
-- packages/core/src/wire.ts: the bytes that a block is hashed over. Where `BigInt` throws on a cap
-- that is not a number, the model has the code of `amountBytes`, which refuses the same texts.
pub mod Widths
pub mod Parts
pub mod Payload
pub mod Framing
use kei_transaction.Common.Tests.{
  ℕ, suc, ◌+◌, ◌-◌, ◌*◌, ◌/◌, ◌%◌, ◌^◌, Bool, true, false, ◌&&◌, ◌||◌, not, Option, none, some,
  List, [], ◌∷◌, ◌++◌, leb, eqb, ltb, if◌then◌else◌,
}
use kei_transaction.Common.Eq.{◌==◌, text_eq}
use kei_transaction.Common.Lists.{length, replicate, all}
use kei_transaction.Dict.{Dict, lookup, mem}
use kei_transaction.Js.Text.{Text, text, trim, utf8}
use kei_transaction.Js.Number.{
  Number, whole, negative, fraction, not_finite, is_digit, decimal_from, max_safe_integer,
}
use kei_transaction.Core.Errors.{Result, ok, err, fail_if, bad_block, bad_amount, ◌>>=◌, ◌>>◌}
use kei_transaction.Core.Crypto.{Crypto}
use kei_transaction.Core.Hex.{concat, is_hex, hex_to_bytes, bigint_to_bytes}
use kei_transaction.Core.Address.{public_key_from_address}
use kei_transaction.Core.Merkle.{derive_asset_id}
use kei_transaction.Core.Blocks.{
  AssetOp, issue, mint, burn, transfer, asset_receive, commit, commit_close, claim, swap_offer,
  swap_accept, swap_cancel, AssetKind, token, item, StateBlockBody, AssetBlockBody, BlockBody,
  state, asset, IssueOp, MintOp, TransferOp, CommitOp, ClaimOp, SwapOfferOp, SwapAcceptOp,
  normalize_symbol,
}

abbrev pub block_type_state : ℕ
block_type_state = 6

abbrev pub block_type_asset : ℕ
block_type_asset = 7

-- `ASSET_OP[op.kind]`, which every operation has.
unfoldable pub asset_op : AssetOp → ℕ
asset_op (issue _) = 0
asset_op (mint _) = 1
asset_op (burn _) = 2
asset_op (transfer _) = 3
asset_op (asset_receive _) = 4
asset_op (commit _) = 5
asset_op (commit_close _) = 6
asset_op (claim _) = 7
asset_op (swap_offer _) = 8
asset_op (swap_accept _) = 9
asset_op (swap_cancel _) = 10

abbrev pub no_expiry : ℕ
no_expiry = 0

abbrev pub transfer_policies : Dict Text ℕ
transfer_policies = (text "open", 0) ∷ (text "issuer-only", 1) ∷ (text "none", 2) ∷ []

abbrev pub swap_policies : Dict Text ℕ
swap_policies = (text "two-way", 0) ∷ (text "one-way", 1) ∷ (text "off", 2) ∷ []

abbrev pub asset_kinds : Dict Text ℕ
asset_kinds = (text "unspecified", 0) ∷ (text "token", 1) ∷ (text "item", 2) ∷ []

abbrev pub max_name : ℕ
max_name = 64

abbrev pub max_symbol : ℕ
max_symbol = 20

abbrev pub max_description : ℕ
max_description = 256

abbrev pub max_image : ℕ
max_image = 128

abbrev pub max_memo : ℕ
max_memo = 128

unfoldable pub hash_bytes : Text → Result (List ℕ)
hash_bytes value = do fail_if (not (is_hex value (some 32))) bad_block; hex_to_bytes value

-- The pattern `DECIMAL`.
unfoldable pub is_plain_decimal : Text → Bool
is_plain_decimal [] = false
is_plain_decimal (c ∷ s) =
    (eqb c b'0' && eqb (length s) 0) || (leb b'1' c && leb c b'9' && all is_digit s)

unfoldable pub amount_bytes : Text → Result (List ℕ)
unfolding is_plain_decimal
amount_bytes value = do
  fail_if (not (is_plain_decimal value)) bad_amount
  bigint_to_bytes (decimal_from 0 value) 16

-- `value & 0xff`
unfoldable pub u8 : Number → List ℕ
u8 (whole n) = (n % 256) ∷ []
u8 (negative n) = (255 - n % 256) ∷ []
u8 (fraction low) = (low % 256) ∷ []
u8 not_finite = 0 ∷ []

unfoldable pub u16le : ℕ → List ℕ
u16le value = (value % 256) ∷ (value / 256 % 256) ∷ []

abbrev pub u32be : ℕ → Result (List ℕ)
u32be value = bigint_to_bytes value 4

abbrev pub u64be : ℕ → Result (List ℕ)
u64be value = bigint_to_bytes value 8

unfoldable pub timestamp_bytes : Option Number → Result (List ℕ)
timestamp_bytes none = u64be no_expiry
timestamp_bytes (some (whole n)) = do fail_if (ltb max_safe_integer n || eqb n 0) bad_block; u64be n
timestamp_bytes (some (negative n)) = err bad_block
timestamp_bytes (some (fraction _)) = err bad_block
timestamp_bytes (some not_finite) = err bad_block

unfoldable pub payload_string : Text → ℕ → Result (List ℕ)
unfolding u16le
payload_string value max =
    let bytes = utf8 value in
    do fail_if (ltb max (length bytes)) bad_block; ok (u16le (length bytes) ++ bytes)

-- The names that every object inherits, which a table looks up as well; the low byte of what they name
-- is 0.
abbrev pub inherited_names : List Text
inherited_names =
    text "constructor"
    ∷ text "toString"
    ∷ text "toLocaleString"
    ∷ text "valueOf"
    ∷ text "hasOwnProperty"
    ∷ text "isPrototypeOf"
    ∷ text "propertyIsEnumerable"
    ∷ text "__proto__"
    ∷ text "__defineGetter__"
    ∷ text "__defineSetter__"
    ∷ text "__lookupGetter__"
    ∷ text "__lookupSetter__"
    ∷ []

unfoldable pub enum_byte : Dict Text ℕ → Text → Result (List ℕ)
enum_byte table value = elim (lookup value table) [
  | some code ↦ ok (code ∷ [])
  | none ↦ if mem value inherited_names then ok (0 ∷ []) else err bad_block
]

abbrev pub zero_32 : List ℕ
zero_32 = replicate 32 0

abbrev pub zero_16 : List ℕ
zero_16 = replicate 16 0

-- The flat fields of an operation, without its code.
pub record WireFields : Type 0 where
  pub asset_id : List ℕ
  pub amount : List ℕ
  pub link : List ℕ
  pub payload : List ℕ

abbrev pub text_or_empty : Option Text → Text
text_or_empty none = []
text_or_empty (some s) = s

abbrev pub kind_name : Option AssetKind → Text
kind_name none = text "unspecified"
kind_name (some token) = text "token"
kind_name (some item) = text "item"

unfoldable pub zeros : Text → Bool
zeros = all (λ c. eqb c b'0')

-- The letter after the zero of `0x`, `0o` and `0b`.
unfoldable pub is_radix : ℕ → Bool
is_radix c = eqb c b'x' || eqb c b'X' || eqb c b'o' || eqb c b'O' || eqb c b'b' || eqb c b'B'

-- Whether `BigInt` reads a trimmed text as zero; it does the empty one.
unfoldable pub is_zero_numeral : Text → Bool
unfolding zeros is_radix
is_zero_numeral [] = true
is_zero_numeral (c ∷ []) = eqb c b'0'
is_zero_numeral (c ∷ d ∷ s) =
    ((eqb c b'+' || eqb c b'-') && zeros (d ∷ s))
    || (eqb c b'0' && is_radix d && not (eqb (length s) 0) && zeros s)
    || zeros (c ∷ d ∷ s)

-- `op.maxSupply !== null && BigInt(op.maxSupply) === 0n`. Where `BigInt` throws, `amount_bytes`
-- refuses the cap later.
unfoldable pub is_zero_cap : Option Text → Bool
unfolding is_zero_numeral
is_zero_cap none = false
is_zero_cap (some s) = is_zero_numeral (trim s)

abbrev pub cap_text : Option Text → Text
cap_text none = text "0"
cap_text (some s) = s

unfoldable pub issue_payload : IssueOp → Text → Result (List ℕ)
unfolding payload_string amount_bytes enum_byte u8
issue_payload op symbol = do
  name ← payload_string op.name max_name
  symbol_part ← payload_string symbol max_symbol
  cap ← amount_bytes (cap_text op.max_supply)
  transfer_policy ← enum_byte transfer_policies op.transfer
  swap_policy ← enum_byte swap_policies op.swap
  description ← payload_string (text_or_empty op.metadata.description) max_description
  image ← payload_string (text_or_empty op.metadata.image) max_image
  kind ← enum_byte asset_kinds (kind_name op.metadata.kind)
  ok (
      concat (
        name
        ∷ symbol_part
        ∷ u8 op.decimals
        ∷ cap
        ∷ transfer_policy
        ∷ swap_policy
        ∷ description
        ∷ image
        ∷ kind
        ∷ []))

unfoldable pub offer_payload : SwapOfferOp → Result (List ℕ)
unfolding hash_bytes amount_bytes timestamp_bytes
offer_payload op = do
  want_asset ← hash_bytes op.want_asset
  want_amount ← amount_bytes op.want_amount
  expires_at ← timestamp_bytes op.expires_at
  ok (concat (want_asset ∷ want_amount ∷ expires_at ∷ []))

-- The guard on a commit's count, and the count.
unfoldable pub commit_count : Number → Result ℕ
commit_count (whole n) = do fail_if (eqb n 0 || ltb 0xffffffff n) bad_block; ok n
commit_count (negative n) = err bad_block
commit_count (fraction _) = err bad_block
commit_count not_finite = err bad_block

unfoldable pub proof_bytes : List Text → Result (List ℕ)
unfolding hash_bytes
proof_bytes [] = ok []
proof_bytes (hash ∷ proof) = do
  first ← hash_bytes hash
  rest ← proof_bytes proof
  ok (first ++ rest)

module _ ⦃c : Crypto⦄ where
  -- `keiBlockDomain`; the cached value is the same on every call.
  unfoldable pub kei_block_domain : List ℕ
  kei_block_domain = c.blake2b (utf8 (text "kei-block-v1")) 32

  -- A block type fits in 32 bytes.
  unfoldable pub preamble : ℕ → List ℕ
  unfolding kei_block_domain
  preamble block_type = kei_block_domain ++ (replicate 31 0 ++ block_type ∷ [])

  unfoldable pub account_bytes : Text → Result (List ℕ)
  account_bytes value =
      if is_hex value (some 32)
      then hex_to_bytes value
      else (do key ← public_key_from_address value; hex_to_bytes key)

  abbrev pub counterparty_bytes : Option Text → Result (List ℕ)
  counterparty_bytes none = ok zero_32
  counterparty_bytes (some party) = account_bytes party

  unfoldable pub asset_fields : Text → AssetOp → Result WireFields
  unfolding issue_payload offer_payload commit_count proof_bytes account_bytes hash_bytes
      amount_bytes payload_string is_zero_cap
  asset_fields account (issue op) = do
    symbol ← normalize_symbol op.symbol
    fail_if (is_zero_cap op.max_supply) bad_block
    key ← public_key_from_address account
    id ← derive_asset_id key symbol
    id_bytes ← hex_to_bytes id
    payload ← issue_payload op symbol
    ok (record { asset_id = id_bytes; amount = zero_16; link = zero_32; payload = payload })
  asset_fields account (mint op) = do
    id ← hash_bytes op.asset
    amount ← amount_bytes op.amount
    link ← account_bytes op.to
    payload ← payload_string [] max_memo
    ok (record { asset_id = id; amount = amount; link = link; payload = payload })
  asset_fields account (transfer op) = do
    id ← hash_bytes op.asset
    amount ← amount_bytes op.amount
    link ← account_bytes op.to
    payload ← payload_string (text_or_empty op.memo) max_memo
    ok (record { asset_id = id; amount = amount; link = link; payload = payload })
  asset_fields account (burn op) = do
    id ← hash_bytes op.asset
    amount ← amount_bytes op.amount
    ok (record { asset_id = id; amount = amount; link = zero_32; payload = [] })
  asset_fields account (asset_receive op) = do
    link ← hash_bytes op.link
    ok (record { asset_id = zero_32; amount = zero_16; link = link; payload = [] })
  asset_fields account (commit op) = do
    count ← commit_count op.count
    id ← hash_bytes op.asset
    amount ← amount_bytes op.total
    link ← hash_bytes op.root
    payload ← u32be count
    ok (record { asset_id = id; amount = amount; link = link; payload = payload })
  asset_fields account (commit_close op) = do
    link ← hash_bytes op.root
    ok (record { asset_id = zero_32; amount = zero_16; link = link; payload = [] })
  asset_fields account (claim op) = do
    fail_if (ltb 48 (length op.proof)) bad_block
    id ← hash_bytes op.asset
    amount ← amount_bytes op.amount
    link ← hash_bytes op.root
    proof ← proof_bytes op.proof
    ok (record {
      asset_id = id;
      amount = amount;
      link = link;
      payload = (length op.proof % 256) ∷ proof;
    })
  asset_fields account (swap_offer op) = do
    id ← hash_bytes op.asset
    amount ← amount_bytes op.amount
    link ← counterparty_bytes op.counterparty
    payload ← offer_payload op
    ok (record { asset_id = id; amount = amount; link = link; payload = payload })
  asset_fields account (swap_accept op) = do
    id ← hash_bytes op.asset
    amount ← amount_bytes op.amount
    link ← hash_bytes op.offer
    ok (record { asset_id = id; amount = amount; link = link; payload = [] })
  asset_fields account (swap_cancel op) = do
    link ← hash_bytes op.offer
    ok (record { asset_id = zero_32; amount = zero_16; link = link; payload = [] })

  unfoldable pub state_bytes : StateBlockBody → Result (List ℕ)
  unfolding account_bytes hash_bytes amount_bytes preamble
  state_bytes body = do
    account ← account_bytes body.account
    previous ← hash_bytes body.previous
    representative ← account_bytes body.representative
    balance ← amount_bytes body.balance
    link ← account_bytes body.link
    ok (
        concat
          (preamble block_type_state ∷ account ∷ previous ∷ representative ∷ balance ∷ link ∷ []))

  unfoldable pub asset_bytes : AssetBlockBody → Result (List ℕ)
  unfolding asset_fields asset_op account_bytes hash_bytes amount_bytes preamble u16le
  asset_bytes body = do
    fields ← asset_fields body.account body.op
    account ← account_bytes body.account
    previous ← hash_bytes body.previous
    representative ← account_bytes body.representative
    balance ← amount_bytes body.balance
    ok (
        concat (
          preamble block_type_asset
          ∷ account
          ∷ previous
          ∷ representative
          ∷ balance
          ∷ (asset_op body.op ∷ [])
          ∷ fields.asset_id
          ∷ fields.amount
          ∷ fields.link
          ∷ u16le (length fields.payload)
          ∷ fields.payload
          ∷ []))

  -- Whether `nodeLayoutGap` is not null. Every operation has a code.
  unfoldable pub node_layout_gap : BlockBody → Bool
  node_layout_gap (state body) = elim body.memo [ none ↦ false | some _ ↦ true ]
  node_layout_gap (asset body) = false

  unfoldable pub block_preimage : BlockBody → Result (List ℕ)
  unfolding node_layout_gap state_bytes asset_bytes
  block_preimage (state body) = do
    fail_if (node_layout_gap (state body)) bad_block
    state_bytes body
  block_preimage (asset body) = asset_bytes body

  -- `LOCAL_PREAMBLE` of hash.ts.
  abbrev pub local_preamble : Text
  local_preamble = text "kei-block-local-v0"

  -- The bytes that `hashBlock` of hash.ts gives to the digest; `canonical_json` is the text that `JSON.stringify` makes of a body with its
  -- keys in order. The ledger takes this function as its `preimage`.
  unfoldable pub hashed_bytes : (BlockBody → Text) → BlockBody → Result (List ℕ)
  unfolding node_layout_gap block_preimage
  hashed_bytes canonical_json body =
      if node_layout_gap body
      then ok (utf8 (local_preamble ++ 10 ∷ canonical_json body))
      else block_preimage body

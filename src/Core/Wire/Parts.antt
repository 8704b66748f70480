-- ===== src/Core/Wire/Parts.antt =====
-- The parts that the payload of an operation in packages/core/src/wire.ts is made of, and how its bytes
-- tell them apart.
pub mod Encoded
use mathlib.Core.List.{append-nil}
use kei_transaction.Common.Tests.{
  ℕ, ◌+◌, ◌*◌, ◌/◌, ◌%◌, ◌<◌, ◌≤◌, ◌≡◌, refl, sym, ap, ◌∙◌, List, [], ◌∷◌, ◌++◌, eqb, arith,
  if◌then◌else◌,
}
use kei_transaction.Common.Lists.{length, take, drop, replicate}
use kei_transaction.Js.Text.{Text, utf8}
use kei_transaction.Core.Errors.{Result, ok, ◌>>=◌}
use kei_transaction.Core.Crypto.{Crypto}
use kei_transaction.Core.Hex.{concat}
use kei_transaction.Core.Blocks.{
  AssetOp, issue, mint, burn, transfer, asset_receive, commit, commit_close, claim, swap_offer,
  swap_accept, swap_cancel, IssueOp, SwapOfferOp, CommitOp, ClaimOp, normalize_symbol,
}
use kei_transaction.Core.Wire.{
  WireFields, asset_op, hash_bytes, amount_bytes, timestamp_bytes, payload_string, u16le, u8, u32be,
  enum_byte, commit_count, proof_bytes, offer_payload, issue_payload, asset_fields, max_name,
  max_symbol, max_description, max_image, max_memo, cap_text, kind_name, text_or_empty,
  transfer_policies, swap_policies, asset_kinds,
}
use kei_transaction.Core.Wire.Widths.{
  length-bigint_to_bytes, length-hash_bytes, length-amount_bytes, length-timestamp_bytes,
  length-enum_byte, length-u8,
}

-- A part of a fixed width, or one that states its length in its first two bytes.
pub data Width : Type 0 where
  sized : ℕ → Width
  prefixed : Width

-- The first part of some bytes, and what follows it.
unfoldable pub read_part : Width → List ℕ → List ℕ × List ℕ
read_part (sized n) bytes = (take n bytes, drop n bytes)
read_part prefixed (low ∷ high ∷ bytes) =
    let n = low + high * 256 in (low ∷ high ∷ take n bytes, drop n bytes)
read_part prefixed bytes = (bytes, [])

unfoldable pub read_parts : List Width → List ℕ → List (List ℕ)
unfolding read_part
read_parts [] bytes = []
read_parts (w ∷ ws) bytes = (read_part w bytes).0 ∷ read_parts ws (read_part w bytes).1

abbrev pub Fits : Width → List ℕ → Type 0
Fits (sized n) part = length part ≡ n
Fits prefixed part =
    (bytes : List ℕ) × (length bytes < 65_536) × (part ≡ u16le (length bytes) ++ bytes)

abbrev pub AllFit : List Width → List (List ℕ) → Type 0
AllFit [] [] = Unit
AllFit [] (part ∷ parts) = ⊥
AllFit (w ∷ ws) [] = ⊥
AllFit (w ∷ ws) (part ∷ parts) = Fits w part × AllFit ws parts

take-append : (xs ys : List ℕ) → take (length xs) (xs ++ ys) ≡ xs
take-append [] ys = refl
take-append (x ∷ xs) ys = ap (λ t. x ∷ t) (take-append xs ys)

drop-append : (xs ys : List ℕ) → drop (length xs) (xs ++ ys) ≡ ys
drop-append [] ys = refl
drop-append (x ∷ xs) ys = drop-append xs ys

read_part-append :
    (w : Width) (part rest : List ℕ)
    → Fits w part
    → ((read_part w (part ++ rest)).0 ≡ part) × ((read_part w (part ++ rest)).1 ≡ rest)
unfolding read_part u16le
read_part-append (sized n) part rest h = rw (sym h) (take-append part rest, drop-append part rest)
read_part-append prefixed part rest (bytes, short, is) =
    let stated : length bytes % 256 + length bytes / 256 % 256 * 256 ≡ length bytes = omega arith in
    rw (is, stated)
      (
        ap (λ t. (length bytes % 256) ∷ (length bytes / 256 % 256) ∷ t) (take-append bytes rest),
        drop-append bytes rest,
      )

-- Parts that fit their widths are read back from the bytes that they make.
pub read_parts-concat :
    (ws : List Width) (parts : List (List ℕ))
    → AllFit ws parts
    → read_parts ws (concat parts) ≡ parts
unfolding read_parts
read_parts-concat [] [] h = refl
read_parts-concat [] (part ∷ parts) h = elim h [ ]
read_parts-concat (w ∷ ws) [] h = elim h [ ]
read_parts-concat (w ∷ ws) (part ∷ parts) (fits, rest) =
    let (first, left) = read_part-append w part (concat parts) fits in
    let others = read_parts-concat ws parts rest in rw (first, left, others) refl

read_one : (w : Width) (part : List ℕ) → Fits w part → read_parts (w ∷ []) part ≡ part ∷ []
read_one w part fits =
    ap (λ b. read_parts (w ∷ []) b) (sym (append-nil part))
    ∙ read_parts-concat (w ∷ []) (part ∷ []) (fits, tt)

-- The widths of the parts, as an operation's code and its payload tell them.
abbrev pub issue_layout : List Width
issue_layout =
    prefixed
    ∷ prefixed
    ∷ sized 1
    ∷ sized 16
    ∷ sized 1
    ∷ sized 1
    ∷ prefixed
    ∷ prefixed
    ∷ sized 1
    ∷ []

abbrev pub proof_layout : List ℕ → List Width
proof_layout [] = []
proof_layout (count ∷ payload) = sized 1 ∷ replicate count (sized 32)

unfoldable pub layout : ℕ → List ℕ → List Width
layout code payload =
    if eqb code 0
    then issue_layout
    else if eqb code 1
    then prefixed ∷ []
    else if eqb code 3
    then prefixed ∷ []
    else if eqb code 5
    then sized 4 ∷ []
    else if eqb code 7
    then proof_layout payload
    else if eqb code 8
    then sized 32 ∷ sized 16 ∷ sized 8 ∷ []
    else []

-- What an operation puts in its payload, each part as it is encoded.
unfoldable pub issue_parts : IssueOp → Text → Result (List (List ℕ))
issue_parts op symbol = do
  name ← payload_string op.name max_name
  symbol_part ← payload_string symbol max_symbol
  cap ← amount_bytes (cap_text op.max_supply)
  transfer_policy ← enum_byte transfer_policies op.transfer
  swap_policy ← enum_byte swap_policies op.swap
  description ← payload_string (text_or_empty op.metadata.description) max_description
  image ← payload_string (text_or_empty op.metadata.image) max_image
  kind ← enum_byte asset_kinds (kind_name op.metadata.kind)
  ok (
      name
      ∷ symbol_part
      ∷ u8 op.decimals
      ∷ cap
      ∷ transfer_policy
      ∷ swap_policy
      ∷ description
      ∷ image
      ∷ kind
      ∷ [])

unfoldable pub proof_parts : List Text → Result (List (List ℕ))
proof_parts [] = ok []
proof_parts (hash ∷ proof) = do first ← hash_bytes hash; rest ← proof_parts proof; ok (first ∷ rest)

unfoldable pub payload_parts : AssetOp → Result (List (List ℕ))
unfolding issue_parts proof_parts
payload_parts (issue op) = do symbol ← normalize_symbol op.symbol; issue_parts op symbol
payload_parts (mint op) = do memo ← payload_string [] max_memo; ok (memo ∷ [])
payload_parts (transfer op) = do
  memo ← payload_string (text_or_empty op.memo) max_memo
  ok (memo ∷ [])
payload_parts (commit op) = do n ← commit_count op.count; count ← u32be n; ok (count ∷ [])
payload_parts (claim op) = do proof ← proof_parts op.proof; ok ((length op.proof ∷ []) ∷ proof)
payload_parts (swap_offer op) = do
  want_asset ← hash_bytes op.want_asset
  want_amount ← amount_bytes op.want_amount
  expires_at ← timestamp_bytes op.expires_at
  ok (want_asset ∷ want_amount ∷ expires_at ∷ [])
payload_parts (burn op) = ok []
payload_parts (asset_receive op) = ok []
payload_parts (commit_close op) = ok []
payload_parts (swap_accept op) = ok []
payload_parts (swap_cancel op) = ok []

-- Parts that are told apart: they make the bytes, and fit widths.
abbrev pub Told : List Width → Result (List (List ℕ)) → List ℕ → Type 0
Told ws parts bytes =
    (read : List (List ℕ)) × (parts ≡ ok read) × (bytes ≡ concat read) × AllFit ws read

pub Told-read :
    (ws : List Width) (parts : Result (List (List ℕ))) (bytes : List ℕ)
    → Told ws parts bytes
    → parts ≡ ok (read_parts ws bytes)
Told-read ws parts bytes (read, e, is, fits) =
    e ∙ ap (λ r. ok r) (sym (read_parts-concat ws read fits) ∙ ap (λ b. read_parts ws b) (sym is))

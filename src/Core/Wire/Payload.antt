-- ===== src/Core/Wire/Payload.antt =====
-- The widths of the flat fields of an operation in packages/core/src/wire.ts.
use kei_transaction.Common.Tests.{ℕ, ◌≤◌, ◌≡◌, ap, ◌∙◌, List, [], ◌∷◌, ◌++◌, arith}
use kei_transaction.Common.Lists.{length, length-append}
use kei_transaction.Js.Text.{Text, utf8}
use kei_transaction.Core.Errors.{Result, ok, ◌>>=◌}
use kei_transaction.Core.Crypto.{Crypto, DigestBytes}
use kei_transaction.Core.Hex.{concat, bytes_to_hex, hex_to_bytes}
use kei_transaction.Core.Hex.Digits.{length-bytes_to_hex}
use kei_transaction.Core.Merkle.{derive_asset_id}
use kei_transaction.Core.Blocks.{
  AssetOp, issue, mint, burn, transfer, asset_receive, commit, commit_close, claim, swap_offer,
  swap_accept, swap_cancel, IssueOp, SwapOfferOp, normalize_symbol,
}
use kei_transaction.Core.Wire.{
  WireFields, hash_bytes, amount_bytes, timestamp_bytes, offer_payload, issue_payload, asset_fields,
}
use kei_transaction.Core.Wire.Widths.{
  length-bigint_to_bytes, length-hash_bytes, length-amount_bytes, length-payload_string,
  length-timestamp_bytes, length-enum_byte, length-u8, length-proof_bytes, length-account_bytes,
  length-counterparty_bytes, hex_to_bytes-eq, length-pairs_to_bytes,
}

-- Fixed widths for the first three fields, and a bound on the payload.
pub record IsFramed (fields : WireFields) : Type 0 where
  pub asset_width : length fields.asset_id ≡ 32
  pub amount_width : length fields.amount ≡ 16
  pub link_width : length fields.link ≡ 32
  pub payload_bound : length fields.payload ≤ 1537

length-issue_payload :
    (op : IssueOp) (symbol : Text) (b : List ℕ) → issue_payload op symbol ≡ ok b → length b ≤ 1537
unfolding issue_payload
length-issue_payload op symbol b e =
    grind (
      arith, length-amount_bytes, length-payload_string, length-enum_byte, length-u8, length-append,
    )

three_parts :
    (first second third : Result (List ℕ)) (b : List ℕ)
    → (do x ← first; y ← second; z ← third; ok (concat (x ∷ y ∷ z ∷ []))) ≡ ok b
    → (x : List ℕ) × (y : List ℕ) × (z : List ℕ) × (first ≡ ok x)
      × (second ≡ ok y)
      × (third ≡ ok z)
      × (b ≡ concat (x ∷ y ∷ z ∷ []))
three_parts first second third b e = ground arith

length-offer_payload : (op : SwapOfferOp) (b : List ℕ) → offer_payload op ≡ ok b → length b ≤ 1537
unfolding offer_payload
length-offer_payload op b e =
    let (x, y, z, want, amount, expiry, shape) =
      three_parts (hash_bytes op.want_asset) (amount_bytes op.want_amount)
        (timestamp_bytes op.expires_at) b e in
    omega (
      arith,
      ap (λ s. length s) shape,
      length-append x (y ++ (z ++ [])),
      length-append y (z ++ []),
      length-append z [],
      length-hash_bytes op.want_asset x want,
      length-amount_bytes op.want_amount y amount,
      length-timestamp_bytes op.expires_at z expiry,
    )

module _ ⦃c : Crypto⦄ where
  derive_asset_id-inv :
      (key symbol id : Text)
      → derive_asset_id key symbol ≡ ok id
      → (bytes : List ℕ) × (normal : Text) × (hex_to_bytes key ≡ ok bytes)
        × (normalize_symbol symbol ≡ ok normal)
        × (id ≡ bytes_to_hex (c.blake2b (bytes ++ utf8 normal) 32))
  unfolding derive_asset_id
  derive_asset_id-inv key symbol id e = ground arith

  length-derive_asset_id :
      DigestBytes
      → (key symbol id : Text) (b : List ℕ) → derive_asset_id key symbol ≡ ok id
      → hex_to_bytes id ≡ ok b
      → length b ≡ 32
  length-derive_asset_id digests key symbol id b e f =
      let (bytes, normal, _, _, shape) = derive_asset_id-inv key symbol id e in
      let digest = c.blake2b (bytes ++ utf8 normal) 32 in
      let digits : length (bytes_to_hex digest) ≡ 64 =
        omega (arith, length-bytes_to_hex digest, (digests (bytes ++ utf8 normal)).0) in
      rw (hex_to_bytes-eq id b f) (length-pairs_to_bytes id 32 (ap (λ s. length s) shape ∙ digits))

  pub asset_fields-IsFramed :
      DigestBytes
      → (account : Text) (op : AssetOp) (fields : WireFields) → asset_fields account op ≡ ok fields
      → IsFramed fields
  unfolding asset_fields
  asset_fields-IsFramed digests account (issue op) fields e =
      grind (arith, length-derive_asset_id digests, length-issue_payload)
  asset_fields-IsFramed digests account (mint op) fields e =
      grind
        (arith, length-hash_bytes, length-amount_bytes, length-account_bytes, length-payload_string)
  asset_fields-IsFramed digests account (transfer op) fields e =
      grind
        (arith, length-hash_bytes, length-amount_bytes, length-account_bytes, length-payload_string)
  asset_fields-IsFramed digests account (burn op) fields e =
      grind (arith, length-hash_bytes, length-amount_bytes)
  asset_fields-IsFramed digests account (asset_receive op) fields e =
      grind (arith, length-hash_bytes)
  asset_fields-IsFramed digests account (commit op) fields e =
      grind (arith, length-hash_bytes, length-amount_bytes, length-bigint_to_bytes)
  asset_fields-IsFramed digests account (commit_close op) fields e =
      grind (arith, length-hash_bytes)
  asset_fields-IsFramed digests account (claim op) fields e =
      grind (arith, length-hash_bytes, length-amount_bytes, length-proof_bytes)
  asset_fields-IsFramed digests account (swap_offer op) fields e = grind (
    arith, length-hash_bytes, length-amount_bytes, length-counterparty_bytes, length-offer_payload,
  )
  asset_fields-IsFramed digests account (swap_accept op) fields e =
      grind (arith, length-hash_bytes, length-amount_bytes)
  asset_fields-IsFramed digests account (swap_cancel op) fields e = grind (arith, length-hash_bytes)

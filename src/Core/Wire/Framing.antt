-- ===== src/Core/Wire/Framing.antt =====
-- The bytes of packages/core/src/wire.ts name the fields that they are made of.
use kei_transaction.Common.Tests.{
  ℕ, ◌+◌, ◌*◌, ◌/◌, ◌%◌, ◌≤◌, ◌<◌, ◌≡◌, refl, sym, ap, ◌∙◌, List, [], ◌∷◌, ◌++◌, map, arith,
}
use mathlib.Core.List.{append-nil, append_assoc}
use kei_transaction.Common.Lists.{length, length-append, replicate}
use kei_transaction.Js.Text.{text, utf8}
use kei_transaction.Core.Errors.{ok}
use kei_transaction.Core.Crypto.{Crypto, DigestBytes}
use kei_transaction.Core.Hex.{concat}
use kei_transaction.Core.Blocks.{StateBlockBody, AssetBlockBody, state, asset}
use kei_transaction.Core.Wire.{
  WireFields, block_type_asset, asset_op, hash_bytes, amount_bytes, u16le, kei_block_domain,
  preamble, account_bytes, asset_fields, state_bytes, asset_bytes, block_preimage,
}
use kei_transaction.Core.Wire.Widths.{length-hash_bytes, length-amount_bytes, length-account_bytes}
use kei_transaction.Core.Wire.Parts.{payload_parts}
use kei_transaction.Core.Wire.Parts.Encoded.{payload_parts-injective}
use kei_transaction.Core.Wire.Payload.{asset_fields-IsFramed}

-- Two lists that begin with as many entries.
pub append-injective :
    {A : Type 0} (xs ys us vs : List A)
    → length xs ≡ length ys
    → xs ++ us ≡ ys ++ vs
    → (xs ≡ ys) × (us ≡ vs)
append-injective [] [] us vs h e = (refl, e)
append-injective [] (y ∷ ys) us vs h e = absurd (omega arith)
append-injective (x ∷ xs) [] us vs h e = absurd (omega arith)
append-injective (x ∷ xs) (y ∷ ys) us vs h e = ground (arith, append-injective xs ys us vs)

-- The sum of the lengths of some lists.
abbrev sum_lengths : List (List ℕ) → ℕ
sum_lengths [] = 0
sum_lengths (part ∷ parts) = length part + sum_lengths parts

length-concat : (parts : List (List ℕ)) → length (concat parts) ≡ sum_lengths parts
length-concat [] = refl
length-concat (part ∷ parts) = omega (arith, length-append part (concat parts), length-concat parts)

-- Parts of the same widths that make the same bytes are the same.
concat-injective :
    (ps qs : List (List ℕ)) → map length ps ≡ map length qs → concat ps ≡ concat qs → ps ≡ qs
concat-injective [] [] h e = refl
concat-injective [] (q ∷ qs) h e = cc
concat-injective (p ∷ ps) [] h e = cc
concat-injective (p ∷ ps) (q ∷ qs) h e =
    let first : length p ≡ length q = ground arith in
    let (same, rest) = append-injective p q (concat ps) (concat qs) first e in
    let others : ps ≡ qs = concat-injective ps qs (ground arith) rest in cc

concat_front :
    (parts : List (List ℕ)) (size payload : List ℕ)
    → concat (parts ++ (size ∷ payload ∷ [])) ≡ concat parts ++ (size ++ payload)
concat_front [] size payload = ap (λ p. size ++ p) (append-nil payload)
concat_front (part ∷ parts) size payload =
    ap (λ r. part ++ r) (concat_front parts size payload)
    ∙ sym (append_assoc part (concat parts) (size ++ payload))

-- The two bytes of a length below 2 ^ 16 state it.
u16le-stated :
    (n : ℕ)
    → n < 65_536
    → (low : ℕ) × (high : ℕ) × (u16le n ≡ low ∷ high ∷ [])
      × (low + high * 256 ≡ n)
      × (low < 256)
      × (high < 256)
unfolding u16le
u16le-stated n small = (n % 256, n / 256 % 256, refl, omega arith, omega arith, omega arith)

module _ ⦃c : Crypto⦄ where
  length-preamble : DigestBytes → (block_type : ℕ) → length (preamble block_type) ≡ 64
  unfolding preamble kei_block_domain
  length-preamble digests block_type = omega (
    arith,
    length-append (c.blake2b (utf8 (text "kei-block-v1")) 32) (replicate 31 0 ++ block_type ∷ []),
    length-append (replicate 31 0) (block_type ∷ []),
    (digests (utf8 (text "kei-block-v1"))).0,
  )

  abbrev asset_parts : List ℕ → List ℕ → List ℕ → List ℕ → ℕ → WireFields → List (List ℕ)
  asset_parts account previous representative balance op fields =
      preamble block_type_asset
      ∷ account
      ∷ previous
      ∷ representative
      ∷ balance
      ∷ (op ∷ [])
      ∷ fields.asset_id
      ∷ fields.amount
      ∷ fields.link
      ∷ u16le (length fields.payload)
      ∷ fields.payload
      ∷ []

  -- Those before the length of the payload.
  abbrev asset_front : List ℕ → List ℕ → List ℕ → List ℕ → ℕ → WireFields → List (List ℕ)
  asset_front account previous representative balance op fields =
      preamble block_type_asset
      ∷ account
      ∷ previous
      ∷ representative
      ∷ balance
      ∷ (op ∷ [])
      ∷ fields.asset_id
      ∷ fields.amount
      ∷ fields.link
      ∷ []

  -- The parts that an asset block's bytes are made of.
  pub record AssetParts (body : AssetBlockBody) (message : List ℕ) : Type 0 where
    pub fields : WireFields
    pub account : List ℕ
    pub previous : List ℕ
    pub representative : List ℕ
    pub balance : List ℕ
    pub fields_of : asset_fields body.account body.op ≡ ok fields
    pub account_of : account_bytes body.account ≡ ok account
    pub previous_of : hash_bytes body.previous ≡ ok previous
    pub representative_of : account_bytes body.representative ≡ ok representative
    pub balance_of : amount_bytes body.balance ≡ ok balance
    pub shape :
        message
        ≡ concat (asset_parts account previous representative balance (asset_op body.op) fields)

  asset_bytes-inv :
      (body : AssetBlockBody) (message : List ℕ)
      → asset_bytes body ≡ ok message
      → AssetParts body message
  unfolding asset_bytes
  asset_bytes-inv body message e = grind arith

  state_bytes-length :
      DigestBytes
      → (body : StateBlockBody) (message : List ℕ) → state_bytes body ≡ ok message
      → length message ≡ 208
  unfolding state_bytes
  state_bytes-length digests body message e = grind (
    arith,
    length-hash_bytes,
    length-amount_bytes,
    length-account_bytes,
    length-append,
    length-preamble digests,
  )

  asset_parts-widths :
      DigestBytes
      → (body : AssetBlockBody) (message : List ℕ) (p : AssetParts body message)
      → map length
          (asset_parts p.account p.previous p.representative p.balance (asset_op body.op) p.fields)
        ≡ 64 ∷ 32 ∷ 32 ∷ 32 ∷ 16 ∷ 1 ∷ 32 ∷ 16 ∷ 32 ∷ 2 ∷ length p.fields.payload ∷ []
  unfolding u16le
  asset_parts-widths digests body message p =
      let framed = asset_fields-IsFramed digests body.account body.op p.fields p.fields_of in
      rw
        (
          length-preamble digests block_type_asset,
          length-account_bytes body.account p.account p.account_of,
          length-hash_bytes body.previous p.previous p.previous_of,
          length-account_bytes body.representative p.representative p.representative_of,
          length-amount_bytes body.balance p.balance p.balance_of,
          framed.asset_width,
          framed.amount_width,
          framed.link_width,
        )
        refl

  asset_bytes-length :
      DigestBytes
      → (body : AssetBlockBody) (message : List ℕ) (p : AssetParts body message)
      → length message ≡ 259 + length p.fields.payload
  asset_bytes-length digests body message p = ground (
    arith,
    ap (λ s. length s) p.shape,
    asset_parts-widths digests body message p,
    length-concat
        (asset_parts p.account p.previous p.representative p.balance (asset_op body.op) p.fields),
  )

  -- The bytes of an asset block are 257, then two bytes below 256 that state a length, the low one
  -- first, and then the payload of its operation, which has that length and at most 1537 bytes.
  pub asset_bytes-widths :
      DigestBytes
      → (body : AssetBlockBody) (message : List ℕ) → asset_bytes body ≡ ok message
      → (fields : WireFields) × (front : List ℕ) × (low : ℕ) × (high : ℕ) × (asset_fields
            body.account body.op
          ≡ ok fields)
        × (message ≡ front ++ (low ∷ high ∷ fields.payload))
        × (length front ≡ 257)
        × (low + high * 256 ≡ length fields.payload)
        × (low < 256)
        × (high < 256)
        × (length fields.payload ≤ 1537)
  asset_bytes-widths digests body message e =
      let p = asset_bytes-inv body message e in
      let n = length p.fields.payload in
      let bound : n ≤ 1537 =
        (asset_fields-IsFramed digests body.account body.op p.fields p.fields_of).payload_bound in
      let front =
        asset_front p.account p.previous p.representative p.balance (asset_op body.op) p.fields in
      let split = concat_front front (u16le n) p.fields.payload in
      let total = asset_bytes-length digests body message p in
      let (low, high, stated, sum, low_small, high_small) = u16le-stated n (omega arith) in
      let shape : message ≡ concat front ++ (low ∷ high ∷ p.fields.payload) =
        p.shape ∙ split ∙ ap (λ w. concat front ++ (w ++ p.fields.payload)) stated in
      (
        p.fields,
        concat front,
        low,
        high,
        p.fields_of,
        shape,
        omega (
          arith,
          total,
          ap (λ m. length m) shape,
          length-append (concat front) (low ∷ high ∷ p.fields.payload),
        ),
        sum,
        low_small,
        high_small,
        bound,
      )

  -- Two asset blocks with the same bytes have the same account, previous hash, representative, balance,
  -- operation code, flat fields and, one by one, parts of the payload: the strings, the cap, the
  -- policies and the decimals of an issue, the memo, the count, the hashes of a proof and the terms
  -- of an offer; each as it is encoded, so decimals as a byte and policies as their codes.
  pub asset_bytes-injective :
      DigestBytes
      → (a b : AssetBlockBody) (message : List ℕ) → asset_bytes a ≡ ok message
      → asset_bytes b ≡ ok message
      → (account_bytes a.account ≡ account_bytes b.account)
        × (hash_bytes a.previous ≡ hash_bytes b.previous)
        × (account_bytes a.representative ≡ account_bytes b.representative)
        × (amount_bytes a.balance ≡ amount_bytes b.balance)
        × (asset_op a.op ≡ asset_op b.op)
        × (asset_fields a.account a.op ≡ asset_fields b.account b.op)
        × (payload_parts a.op ≡ payload_parts b.op)
  asset_bytes-injective digests a b message e f =
      let p = asset_bytes-inv a message e in
      let q = asset_bytes-inv b message f in
      let lengths : length p.fields.payload ≡ length q.fields.payload =
        omega
          (arith, asset_bytes-length digests a message p, asset_bytes-length digests b message q) in
      let widths =
        asset_parts-widths digests a message p
        ∙ ap (λ n. 64 ∷ 32 ∷ 32 ∷ 32 ∷ 16 ∷ 1 ∷ 32 ∷ 16 ∷ 32 ∷ 2 ∷ n ∷ []) lengths
        ∙ sym (asset_parts-widths digests b message q) in
      let same =
        concat-injective
          (asset_parts p.account p.previous p.representative p.balance (asset_op a.op) p.fields)
          (asset_parts q.account q.previous q.representative q.balance (asset_op b.op) q.fields)
          widths (sym p.shape ∙ q.shape) in
      (
        cc (same, p.account_of, q.account_of),
        cc (same, p.previous_of, q.previous_of),
        cc (same, p.representative_of, q.representative_of),
        cc (same, p.balance_of, q.balance_of),
        cc same,
        ground (arith, same, p.fields_of, q.fields_of),
        payload_parts-injective a.op b.op a.account b.account p.fields q.fields p.fields_of
            q.fields_of (cc same) (cc same),
      )

  -- No state block and asset block have the same bytes.
  pub block_preimage-apart :
      DigestBytes
      → (a : StateBlockBody) (b : AssetBlockBody) (message : List ℕ)
      → block_preimage (state a) ≡ ok message
      → ¬ (block_preimage (asset b) ≡ ok message)
  unfolding block_preimage
  block_preimage-apart digests a b message e f =
      let p = asset_bytes-inv b message f in
      let long = asset_bytes-length digests b message p in
      let short : length message ≡ 208 = state_bytes-length digests a message (ground arith) in
      omega arith

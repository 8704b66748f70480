-- ===== src/Core/Wire/Widths.antt =====
-- The widths of what packages/core/src/wire.ts writes.
use kei_transaction.Common.Tests.{
  ℕ, zero, suc, ◌+◌, ◌*◌, ◌/◌, ◌%◌, ◌^◌, ◌≤◌, ◌≡◌, ◌⊎◌, refl, ap, ◌∙◌, Bool, true, false, not, some,
  none, Option, List, [], ◌∷◌, arith, eqb, leb, Bool-cases, inl, inr,
}
use kei_transaction.Common.Eq.{◌==◌, text_eq}
use kei_transaction.Common.Lists.{length, length-append, take, drop}
use kei_transaction.Dict.{Dict}
use kei_transaction.Js.Text.{Text}
use kei_transaction.Js.Number.{Number, whole, negative, fraction, not_finite}
use kei_transaction.Core.Errors.{Result, ok, err, bad_address, fail_if, ◌>>=◌, ◌>>◌}
use kei_transaction.Core.Hex.{
  is_hex, hex_to_bytes, pairs_to_bytes, bigint_to_bytes, bytes_below, bytes_to_hex,
}
use kei_transaction.Core.Hex.Digits.{length-bytes_to_hex}
use kei_transaction.Core.Crypto.{Crypto}
use kei_transaction.Core.Address.{
  address_prefix, body_length, checksum_length, checksum_of, decode_base32, public_key_from_address,
  bigint_to_fixed_bytes,
}
use kei_transaction.Core.Wire.{
  hash_bytes, amount_bytes, u8, u16le, payload_string, timestamp_bytes, enum_byte, proof_bytes,
  account_bytes, counterparty_bytes,
}

pub length-pairs_to_bytes : (s : Text) (n : ℕ) → length s ≡ n * 2 → length (pairs_to_bytes s) ≡ n
unfolding pairs_to_bytes
length-pairs_to_bytes [] n h = omega arith
length-pairs_to_bytes (a ∷ []) n h = absurd (omega arith)
length-pairs_to_bytes (a ∷ b ∷ s) zero h = absurd (omega arith)
length-pairs_to_bytes (a ∷ b ∷ s) (suc n) h = omega (arith, length-pairs_to_bytes s n (omega arith))

pub length-bytes_below :
    (n rest : ℕ) (out : List ℕ) → length ((bytes_below n rest out).0) ≡ n + length out
unfolding bytes_below
length-bytes_below zero rest out = omega arith
length-bytes_below (suc n) rest out =
    omega (arith, length-bytes_below n (rest / 256) ((rest % 256) ∷ out))

pub length-bigint_to_bytes : (v n : ℕ) (b : List ℕ) → bigint_to_bytes v n ≡ ok b → length b ≡ n
unfolding bigint_to_bytes
length-bigint_to_bytes v n b e = ground (arith, length-bytes_below n v [])

pub hex_to_bytes-eq : (s : Text) (b : List ℕ) → hex_to_bytes s ≡ ok b → b ≡ pairs_to_bytes s
unfolding hex_to_bytes
hex_to_bytes-eq s b e = ground arith

is_hex-length : (s : Text) (n : ℕ) → is_hex s (some n) ≡ true → length s ≡ n * 2
unfolding is_hex
is_hex-length s n h = ground arith

pub length-hex_32 :
    (s : Text) (b : List ℕ) → is_hex s (some 32) ≡ true → hex_to_bytes s ≡ ok b → length b ≡ 32
length-hex_32 s b h e =
    rw (hex_to_bytes-eq s b e) (length-pairs_to_bytes s 32 (is_hex-length s 32 h))

pub length-hash_bytes : (s : Text) (b : List ℕ) → hash_bytes s ≡ ok b → length b ≡ 32
unfolding hash_bytes
length-hash_bytes s b e = ground (arith, length-hex_32 s b)

pub length-amount_bytes : (s : Text) (b : List ℕ) → amount_bytes s ≡ ok b → length b ≡ 16
unfolding amount_bytes
length-amount_bytes s b e = grind (arith, length-bigint_to_bytes)

pub length-payload_string :
    (s : Text) (max : ℕ) (b : List ℕ) → payload_string s max ≡ ok b → length b ≤ 2 + max
unfolding payload_string u16le
length-payload_string s max b e = ground arith

pub length-timestamp_bytes :
    (t : Option Number) (b : List ℕ) → timestamp_bytes t ≡ ok b → length b ≡ 8
unfolding timestamp_bytes
length-timestamp_bytes none b e = length-bigint_to_bytes 0 8 b e
length-timestamp_bytes (some (whole n)) b e = ground (arith, length-bigint_to_bytes n 8 b)
length-timestamp_bytes (some (negative n)) b e = cc
length-timestamp_bytes (some (fraction low)) b e = cc
length-timestamp_bytes (some not_finite) b e = cc

pub length-enum_byte :
    (table : Dict Text ℕ) (s : Text) (b : List ℕ) → enum_byte table s ≡ ok b → length b ≡ 1
unfolding enum_byte
length-enum_byte table s b e = ground arith

pub length-u8 : (n : Number) → length (u8 n) ≡ 1
unfolding u8
length-u8 (whole n) = refl
length-u8 (negative n) = refl
length-u8 (fraction low) = refl
length-u8 not_finite = refl

pub length-proof_bytes :
    (proof : List Text) (b : List ℕ) → proof_bytes proof ≡ ok b → length b ≡ 32 * length proof
unfolding proof_bytes
length-proof_bytes [] b e = ground arith
length-proof_bytes (h ∷ proof) b e =
    grind (arith, length-hash_bytes h, length-proof_bytes proof, length-append)

-- Six checks in a row, and what they leave.
checks-shape :
    (t u : Bool) (first : Result ℕ) (large : ℕ → Bool) (second : Result ℕ) (wrong : ℕ → ℕ → Bool)
    (f : ℕ → Text) (key : Text)
    → (do
      fail_if t bad_address
      fail_if u bad_address
      v ← first
      fail_if (large v) bad_address
      s ← second
      fail_if (wrong v s) bad_address
      ok (f v))
      ≡ ok key
    → (v : ℕ) × (key ≡ f v)
checks-shape true u first large second wrong f key e = cc
checks-shape false true first large second wrong f key e = cc
checks-shape false false (err _) large second wrong f key e = cc
checks-shape false false (ok v) large second wrong f key e = (v, ground arith)

module _ ⦃c : Crypto⦄ where
  public_key_from_address-shape :
      (address key : Text)
      → public_key_from_address address ≡ ok key
      → (v : ℕ) × (key ≡ bytes_to_hex (bigint_to_fixed_bytes v 32))
  unfolding public_key_from_address
  public_key_from_address-shape address key e =
      checks-shape (not (take 4 address == address_prefix))
        (not (eqb (length (drop 4 address)) (body_length + checksum_length)))
        (decode_base32 0 (take body_length (drop 4 address))) (λ v. leb (2 ^ 256) v)
        (decode_base32 0 (drop body_length (drop 4 address)))
        (λ v s. not (checksum_of (bigint_to_fixed_bytes v 32) == bigint_to_fixed_bytes s 5))
        (λ v. bytes_to_hex (bigint_to_fixed_bytes v 32)) key e

  account_bytes-inv :
      (value : Text) (b : List ℕ)
      → account_bytes value ≡ ok b
      → ((is_hex value (some 32) ≡ true) × (hex_to_bytes value ≡ ok b))
        ⊎ ((key : Text) × (public_key_from_address value ≡ ok key) × (hex_to_bytes key ≡ ok b))
  unfolding account_bytes
  account_bytes-inv value b e = elim (Bool-cases (is_hex value (some 32))) [
    | inl hex ↦ inl (hex, ground arith)
    | inr other ↦ inr (ground arith)
  ]

  length-key : (v : ℕ) → length (bytes_to_hex (bigint_to_fixed_bytes v 32)) ≡ 64
  unfolding bigint_to_fixed_bytes
  length-key v =
      omega (arith, length-bytes_to_hex ((bytes_below 32 v []).0), length-bytes_below 32 v [])

  pub length-account_bytes :
      (value : Text) (b : List ℕ) → account_bytes value ≡ ok b → length b ≡ 32
  length-account_bytes value b e = elim (account_bytes-inv value b e) [
    | inl (hex, bytes) ↦ length-hex_32 value b hex bytes
    | inr (key, of, bytes) ↦
        let (v, shape) = public_key_from_address-shape value key of in
        rw (hex_to_bytes-eq key b bytes)
          (length-pairs_to_bytes key 32 (ap (λ s. length s) shape ∙ length-key v))
  ]

  pub length-counterparty_bytes :
      (party : Option Text) (b : List ℕ) → counterparty_bytes party ≡ ok b → length b ≡ 32
  length-counterparty_bytes none b e = ground arith
  length-counterparty_bytes (some party) b e = length-account_bytes party b e

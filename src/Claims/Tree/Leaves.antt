-- ===== src/Claims/Tree/Leaves.antt =====
-- The leaves that `buildCommit` of packages/claims/src/tree.ts makes of the recipients.
use mathlib.Core.Path.{subst}
use kei_transaction.Common.Tests.{
  ℕ, zero, suc, ◌+◌, ◌<◌, ◌≡◌, refl, sym, ap, ◌∙◌, true, some, List, [], ◌∷◌, ◌++◌, arith,
  Bool-cases, inl, inr, if◌then◌else◌,
}
use kei_transaction.Common.Eq.{list_beq_iff, text_eq, ◌==◌}
use kei_transaction.Common.Lists.{length}
use kei_transaction.Dict.{Dict, lookup}
use kei_transaction.Js.Text.{Text}
use kei_transaction.Core.Errors.{ok}
use kei_transaction.Core.Address.{public_key_from_address}
use kei_transaction.Core.Crypto.{Crypto, DigestBytes}
use kei_transaction.Core.Hex.{is_hex, bytes_to_hex, hex_to_bytes, pairs_to_bytes, bigint_to_bytes}
use kei_transaction.Core.Hex.Digits.{is_hex-bytes_to_hex}
use kei_transaction.Core.Merkle.{leaf_hash, salt_leaf}
use kei_transaction.Claims.Tree.{amount_in, entry_at, index_in, recipient_leaves}
use kei_transaction.Claims.Tree.Hexes.{all_hex}

pub entry_at-append :
    (xs ys : List Text) (i : ℕ) → i < length xs → entry_at (xs ++ ys) i ≡ entry_at xs i
unfolding entry_at
entry_at-append [] ys i h = absurd (omega arith)
entry_at-append (x ∷ xs) ys zero h = refl
entry_at-append (x ∷ xs) ys (suc i) h = entry_at-append xs ys i (omega arith)

pub entry_at-last : (xs : List Text) (y : Text) → entry_at (xs ++ y ∷ []) (length xs) ≡ y
unfolding entry_at
entry_at-last [] y = refl
entry_at-last (x ∷ xs) y = entry_at-last xs y

pub all_hex-append :
    (xs ys : List Text) → all_hex xs ≡ true → all_hex ys ≡ true → all_hex (xs ++ ys) ≡ true
all_hex-append [] ys h k = k
all_hex-append (x ∷ xs) ys h k = ground (arith, all_hex-append xs ys)

module _ ⦃c : Crypto⦄ where
  is_hex-digest :
      DigestBytes
      → (message : List ℕ) → is_hex (bytes_to_hex (c.blake2b message 32)) (some 32) ≡ true
  is_hex-digest digests message =
      is_hex-bytes_to_hex (c.blake2b message 32) (digests message).0 (digests message).1

  leaf_hash-inv :
      (key asset : Text) (amount : ℕ) (leaf : Text)
      → leaf_hash key asset amount ≡ ok leaf
      → (bytes : List ℕ) × (id : List ℕ) × (raw : List ℕ) × (hex_to_bytes key ≡ ok bytes)
        × (hex_to_bytes asset ≡ ok id)
        × (bigint_to_bytes amount 16 ≡ ok raw)
        × (leaf ≡ bytes_to_hex (c.blake2b (0x00 ∷ (bytes ++ id ++ raw)) 32))
  unfolding leaf_hash
  leaf_hash-inv key asset amount leaf e = ground arith

  is_hex-leaf_hash :
      DigestBytes
      → (key asset : Text) (amount : ℕ) (leaf : Text) → leaf_hash key asset amount ≡ ok leaf
      → is_hex leaf (some 32) ≡ true
  is_hex-leaf_hash digests key asset amount leaf e =
      let (bytes, id, raw, _, _, _, shape) = leaf_hash-inv key asset amount leaf e in
      rw shape (is_hex-digest digests (0x00 ∷ (bytes ++ id ++ raw)))

  salt_leaf-inv :
      (salt leaf : Text)
      → salt_leaf salt ≡ ok leaf
      → leaf ≡ bytes_to_hex (c.blake2b (0x02 ∷ pairs_to_bytes salt) 32)
  unfolding salt_leaf
  salt_leaf-inv salt leaf e = ground arith

  pub is_hex-salt_leaf :
      DigestBytes → (salt leaf : Text) → salt_leaf salt ≡ ok leaf → is_hex leaf (some 32) ≡ true
  is_hex-salt_leaf digests salt leaf e =
      rw (salt_leaf-inv salt leaf e) (is_hex-digest digests (0x02 ∷ pairs_to_bytes salt))

  -- What the leaf of an address is made of.
  pub record LeafOf (asset : Text) (merged : Dict Text ℕ) (address leaf : Text) : Type 0 where
    pub key : Text
    pub keyed : public_key_from_address address ≡ ok key
    pub hashed : leaf_hash key asset (amount_in (lookup address merged)) ≡ ok leaf

  recipient_leaves-inv :
      (asset : Text) (merged : Dict Text ℕ) (r : Text) (rs leaves : List Text)
      → recipient_leaves asset merged (r ∷ rs) ≡ ok leaves
      → (leaf : Text) × (above : List Text) × (leaves ≡ leaf ∷ above)
        × LeafOf asset merged r leaf
        × (recipient_leaves asset merged rs ≡ ok above)
  unfolding recipient_leaves
  recipient_leaves-inv asset merged r rs leaves e = grind arith

  pub length-recipient_leaves :
      (asset : Text) (merged : Dict Text ℕ) (rs leaves : List Text)
      → recipient_leaves asset merged rs ≡ ok leaves
      → length leaves ≡ length rs
  unfolding recipient_leaves
  length-recipient_leaves asset merged [] leaves e = ground arith
  length-recipient_leaves asset merged (r ∷ rs) leaves e =
      let (leaf, above, e1, _, e2) = recipient_leaves-inv asset merged r rs leaves e in
      rw e1 (omega (arith, length-recipient_leaves asset merged rs above e2))

  pub all_hex-recipient_leaves :
      DigestBytes
      → (asset : Text) (merged : Dict Text ℕ) (rs leaves : List Text)
      → recipient_leaves asset merged rs ≡ ok leaves
      → all_hex leaves ≡ true
  unfolding recipient_leaves
  all_hex-recipient_leaves digests asset merged [] leaves e = ground arith
  all_hex-recipient_leaves digests asset merged (r ∷ rs) leaves e =
      let (leaf, above, e1, of, e2) = recipient_leaves-inv asset merged r rs leaves e in
      let rest : all_hex above ≡ true = all_hex-recipient_leaves digests asset merged rs above e2 in
      rw (e1, is_hex-leaf_hash digests of.key asset _ leaf of.hashed) rest

  -- The place of an address among the recipients is the place of its leaf.
  pub recipient_leaves-at :
      (asset : Text) (merged : Dict Text ℕ) (address : Text) (rs leaves : List Text) (n i : ℕ)
      → recipient_leaves asset merged rs ≡ ok leaves
      → index_in address rs n ≡ some i
      → (m : ℕ) × (i ≡ n + m)
        × (m < length leaves)
        × LeafOf asset merged address (entry_at leaves m)
  unfolding recipient_leaves index_in entry_at
  recipient_leaves-at asset merged address [] leaves n i e found = cc
  recipient_leaves-at asset merged address (r ∷ rs) leaves n i e found =
      let (leaf, above, e1, of, e2) = recipient_leaves-inv asset merged r rs leaves e in
      elim (Bool-cases (r == address)) [
        | inl same ↦
            let here : some n ≡ some i =
              sym (ap (λ b. if b then some n else index_in address rs (suc n)) same) ∙ found in
            let of_address : LeafOf asset merged address leaf =
              subst (λ a. LeafOf asset merged a leaf) ((list_beq_iff r address).0 same) of in
            rw e1 ((0, ground arith, omega arith, of_address))
        | inr other ↦
            let later : index_in address rs (suc n) ≡ some i =
              sym (ap (λ b. if b then some n else index_in address rs (suc n)) other) ∙ found in
            let (m, at, within, of_address) =
              recipient_leaves-at asset merged address rs above (suc n) i e2 later in
            rw e1 ((suc m, omega arith, omega arith, of_address))
      ]

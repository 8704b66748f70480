-- ===== src/Claims/Tree/Hexes.antt =====
-- The hashes in the layers that `buildCommit` of packages/claims/src/tree.ts makes are texts of 64
-- hexadecimal digits, as `verifyProof` asks.
use kei_transaction.Common.Tests.{
  ℕ, zero, suc, ◌+◌, ◌-◌, ◌<◌, ◌≡◌, refl, Bool, true, some, List, [], ◌∷◌, arith,
}
use kei_transaction.Common.Lists.{length, all}
use kei_transaction.Js.Text.{Text}
use kei_transaction.Core.Crypto.{Crypto, DigestBytes}
use kei_transaction.Core.Hex.Digits.{is_hex-bytes_to_hex}
use kei_transaction.Core.Hex.{is_hex}
use kei_transaction.Core.Merkle.{combine_hashes}
use kei_transaction.Claims.Tree.{entry_at, entry_or, sibling, pair_up}

abbrev pub all_hex : List Text → Bool
all_hex hashes = all (λ h. is_hex h (some 32)) hashes

pub is_hex-entry_at :
    (l : List Text) (i : ℕ)
    → i < length l
    → all_hex l ≡ true
    → is_hex (entry_at l i) (some 32) ≡ true
unfolding entry_at
is_hex-entry_at [] i h k = absurd (omega arith)
is_hex-entry_at (x ∷ l) zero h k = ground arith
is_hex-entry_at (x ∷ l) (suc i) h k = is_hex-entry_at l i (omega arith) (ground arith)

pub is_hex-sibling :
    (l : List Text) (i : ℕ)
    → i < length l
    → all_hex l ≡ true
    → is_hex (sibling l i) (some 32) ≡ true
unfolding sibling entry_or
is_hex-sibling l i h k =
    ground (arith, is_hex-entry_at l i, is_hex-entry_at l (i + 1), is_hex-entry_at l (i - 1))

module _ ⦃c : Crypto⦄ where
  pub is_hex-combine_hashes :
      DigestBytes → (s t : Text) → is_hex (combine_hashes s t) (some 32) ≡ true
  unfolding combine_hashes
  is_hex-combine_hashes digests s t = is_hex-bytes_to_hex _ (digests _).0 (digests _).1

  pub all_hex-pair_up : DigestBytes → (l : List Text) → all_hex (pair_up l) ≡ true
  unfolding pair_up
  all_hex-pair_up digests [] = refl
  all_hex-pair_up digests (x ∷ []) = ground (arith, is_hex-combine_hashes digests x x)
  all_hex-pair_up digests (x ∷ y ∷ l) =
      ground (arith, is_hex-combine_hashes digests x y, all_hex-pair_up digests l)

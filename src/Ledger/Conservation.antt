-- ===== src/Ledger/Conservation.antt =====
-- Every block that packages/core/src/mock/ledger.ts accepts keeps the ledger valid and conserves Kei.
use kei_transaction.Common.Tests.{
  List, ℕ, ◌+◌, ◌≡◌, ◌⊎◌, refl, sym, ◌∙◌, none, true, false, arith, inl, inr,
}
use kei_transaction.Common.Eq.{text_eq, list_beq_iff}
use kei_transaction.Dict.{lookup}
use kei_transaction.Dict.Sum.{sum-insert}
use kei_transaction.Dict.Laws.{lookup-insert}
use kei_transaction.Js.Text.{Text}
use kei_transaction.Core.Errors.{ok}
use kei_transaction.Core.Hex.{bytes_to_hex, upper-bytes_to_hex}
use kei_transaction.Core.Crypto.{Crypto, NoZeroDigest, hash_block}
use kei_transaction.Core.Blocks.{
  Block, BlockBody, has_declared_subtype, account_of, balance_of, kei_asset, zero_hash,
}
use kei_transaction.Ledger.State.{Ledger, LedgerAccount, LedgerTransition}
use kei_transaction.Ledger.Process.{admit, apply_body, kei_balance, settle, process}
use kei_transaction.Ledger.Commit.{stored_account, commit_block}
use kei_transaction.Ledger.Supply.{
  kei_total, balance_total, IsBalanced, circulating_of, held_total, receivable_total, locked_total,
  burned_total,
}
use kei_transaction.Ledger.Guards.{parse_raw}
use kei_transaction.Ledger.Shape.{HasShape, HasBlock, IsUpper}
use kei_transaction.Ledger.Shape.Writes.{HasShape-mono}
use kei_transaction.Ledger.Effect.{IsValid, Outcome}
use kei_transaction.Ledger.Effect.OfBlock.{
  accounted, accounted-declared, accounted-other, body-effect,
}

-- Storing the block writes its account and its hash.
module _ ⦃c : Crypto⦄ (b : Block) (hash : Text) (new : ℕ) (t : Ledger) where
  pub block_known : (k : Text) → (k ≡ hash) ⊎ HasBlock t k → HasBlock (commit_block b hash new t) k
  unfolding commit_block
  block_known k known = ground (arith, lookup-insert k hash b t.blocks, list_beq_iff hash k)

  balance_total-stored :
      balance_total (commit_block b hash new t) + kei_balance t (account_of b.body)
      ≡ balance_total t + new
  unfolding commit_block balance_total kei_balance
  balance_total-stored = ground (
    arith,
    sum-insert (λ (k : Text) (a : LedgerAccount). a.balance) (account_of b.body)
        (stored_account b hash new (lookup (account_of b.body) t.accounts)) t.accounts,
  )

  stored-HasShape :
      (Known : Text → Type 0) → HasShape Known t → HasShape Known (commit_block b hash new t)
  unfolding commit_block
  stored-HasShape Known h = record {
    asset_fits = h.asset_fits;
    receivable_fits = h.receivable_fits;
    lock_fits = h.lock_fits;
    pending_lock = h.pending_lock;
  }

  stored-IsBalanced : IsBalanced t → IsBalanced (commit_block b hash new t)
  unfolding commit_block circulating_of held_total receivable_total locked_total
  stored-IsBalanced h = h

  stored_totals :
      (receivable_total kei_asset (commit_block b hash new t) ≡ receivable_total kei_asset t)
      × (locked_total kei_asset (commit_block b hash new t) ≡ locked_total kei_asset t)
      × (burned_total (commit_block b hash new t) ≡ burned_total t)
  unfolding commit_block receivable_total locked_total burned_total
  stored_totals = (refl, refl, refl)

same_accounts :
    (s t : Ledger) (account : Text)
    → t.accounts ≡ s.accounts
    → (balance_total t ≡ balance_total s) × (kei_balance t account ≡ kei_balance s account)
unfolding balance_total kei_balance
same_accounts s t account e = (rw e, rw e)

module _ ⦃c : Crypto⦄ {s t : Ledger} (b : Block) (hash : Text) (new n : ℕ) where
  stored-IsValid :
      Outcome s hash (kei_balance s (account_of b.body)) n t → IsValid (commit_block b hash new t)
  stored-IsValid e =
      let known : (k : Text) → (k ≡ hash) ⊎ HasBlock s k → HasBlock (commit_block b hash new t) k =
        λ k h. block_known b hash new t k (rw e.chains.blocks h) in
      record {
        shape =
            stored-HasShape b hash new t (HasBlock (commit_block b hash new t))
              (HasShape-mono e.shape known);
        balanced = stored-IsBalanced b hash new t e.balanced;
      }

  stored_kei :
      Outcome s hash (kei_balance s (account_of b.body)) n t
      → kei_total (commit_block b hash new t) + n ≡ kei_total s + new
  stored_kei e = omega (
    arith,
    stored_totals b hash new t,
    balance_total-stored b hash new t,
    same_accounts s t (account_of b.body) e.chains.accounts,
    e.kei,
  )

hash_block-inv :
    ⦃c : Crypto⦄ (body : BlockBody) (hash : Text)
    → hash_block body ≡ ok hash
    → (bytes : List ℕ) × (c.preimage body ≡ ok bytes) × (hash ≡ bytes_to_hex (c.blake2b bytes 32))
unfolding hash_block
hash_block-inv body hash e = ground arith

-- `hashBlock` renders a digest.
pub hash_block-IsUpper :
    ⦃c : Crypto⦄ (body : BlockBody) (hash : Text) → hash_block body ≡ ok hash → IsUpper hash
hash_block-IsUpper ⦃c⦄ body hash e =
    let (bytes, _, is) = hash_block-inv body hash e in
    rw is (upper-bytes_to_hex (c.blake2b bytes 32))

pub hash_block-NotZero :
    ⦃c : Crypto⦄
    → NoZeroDigest
    → (body : BlockBody) (hash : Text) → hash_block body ≡ ok hash
    → hash ≡ zero_hash
    → ⊥
hash_block-NotZero ⦃c⦄ law body hash e zeros =
    let (bytes, _, is) = hash_block-inv body hash e in law bytes (sym is ∙ zeros)

module _ ⦃c : Crypto⦄ (law : NoZeroDigest) {s t : Ledger} (v : IsValid s) (now : ℕ)
    (b : Block) where
  pub settle-inv :
      (hash : Text)
      → settle now b hash s ≡ ok t
      → (new : ℕ) × (transition : LedgerTransition) × (parse_raw (balance_of b.body) ≡ ok new)
        × (apply_body now s b.body hash (kei_balance s (account_of b.body)) new ≡ ok transition)
        × (t ≡ commit_block b hash new (transition s))
  unfolding settle
  settle-inv hash e = ground arith

  settle_accounts :
      (hash : Text)
      → lookup hash s.blocks ≡ none
      → IsUpper hash
      → settle now b hash s ≡ ok t
      → IsValid t
        × ((new : ℕ) × (parse_raw (balance_of b.body) ≡ ok new)
            × (kei_total t + accounted b.body (kei_balance s (account_of b.body)) new
                ≡ kei_total s + new))
  settle_accounts hash fresh cased e =
      let (new, transition, parsed, applied, is) = settle-inv hash e in
      let previous = kei_balance s (account_of b.body) in
      let n = accounted b.body previous new in
      let effect = body-effect law v now hash fresh cased transition previous new b.body applied in
      rw is (stored-IsValid b hash new n effect, (new, parsed, stored_kei b hash new n effect))

  pub process-inv :
      (hash : Text)
      → process now b s ≡ ok (hash, t)
      → (hash_block b.body ≡ ok hash)
        × ((t ≡ s) ⊎ ((lookup hash s.blocks ≡ none) × (settle now b hash s ≡ ok t)))
  unfolding process
  process-inv hash e = ground arith

  process-settled :
      (hash : Text)
      → lookup hash s.blocks ≡ none
      → process now b s ≡ ok (hash, t)
      → settle now b hash s ≡ ok t
  unfolding process admit
  process-settled hash fresh e = ground arith

  -- A block that the ledger accepts, new or known, keeps the ledger valid, whatever its subtype.
  pub process-IsValid : (hash : Text) → process now b s ≡ ok (hash, t) → IsValid t
  process-IsValid hash e =
      let (hashed, how) = process-inv hash e in
      elim how [
        | inl known ↦ rw known v
        | inr (fresh, settled) ↦
            (settle_accounts hash fresh (hash_block-IsUpper b.body hash hashed) settled).0
      ]

  -- A block that the ledger accepts in one call that no other call interrupts, new or known, and
  -- whose subtype is one of the declared ones if it is a state block, keeps the ledger valid and
  -- conserves Kei, counting what issuance has burned.
  pub process_conserves :
      (hash : Text)
      → has_declared_subtype b.body ≡ true
      → process now b s ≡ ok (hash, t)
      → IsValid t × (kei_total t ≡ kei_total s)
  process_conserves hash declared e =
      let (hashed, how) = process-inv hash e in
      elim how [
        | inl known ↦ rw known (v, refl)
        | inr (fresh, settled) ↦
            let (valid, (new, _, kei)) =
              settle_accounts hash fresh (hash_block-IsUpper b.body hash hashed) settled in
            let stated =
              accounted-declared b.body (kei_balance s (account_of b.body)) new declared in
            (valid, omega (arith, kei, stated))
      ]

  -- A state block of any other subtype is not checked for what it does to Kei. When a valid ledger
  -- that does not have it accepts it, the total of Kei changes by the difference between the balance
  -- that the block states and the one that its account had.
  pub process-other_subtype :
      (hash : Text)
      → has_declared_subtype b.body ≡ false
      → lookup hash s.blocks ≡ none
      → process now b s ≡ ok (hash, t)
      → (new : ℕ) × (parse_raw (balance_of b.body) ≡ ok new)
        × (kei_total t + kei_balance s (account_of b.body) ≡ kei_total s + new)
  process-other_subtype hash other fresh e =
      let (hashed, _) = process-inv hash e in
      let settled = process-settled hash fresh e in
      let (_, (new, parsed, kei)) =
        settle_accounts hash fresh (hash_block-IsUpper b.body hash hashed) settled in
      let previous = kei_balance s (account_of b.body) in
      (new, parsed, omega (arith, kei, accounted-other b.body previous new other))

-- ===== src/Ledger/Chain.antt =====
-- The chain of an account in packages/core/src/mock/ledger.ts: blocks are accepted in one order, each
-- on the frontier, and a block that the ledger has is accepted again without effect.
use kei_transaction.Common.Tests.{
  ℕ, ◌+◌, ◌≡◌, ◌⊎◌, refl, sym, ap, ◌∙◌, inl, inr, none, some, true, [], ◌∷◌, ◌++◌, arith,
  Bool-cases,
}
use kei_transaction.Common.Eq.{◌==◌, text_eq}
use kei_transaction.Dict.{contains, lookup, insert}
use kei_transaction.Dict.Laws.{lookup-insert_self, lookup-insert}
use kei_transaction.Js.Text.{Text}
use kei_transaction.Core.Errors.{ok}
use kei_transaction.Core.Crypto.{Crypto, NoZeroDigest, hash_block}
use kei_transaction.Core.Blocks.{
  Block, account_of, previous_of, balance_of, representative_of, zero_hash,
}
use kei_transaction.Ledger.State.{Ledger, LedgerAccount}
use kei_transaction.Ledger.Guards.{parse_raw, or_empty}
use kei_transaction.Ledger.Commit.{commit_block, stored_account, height_of}
use kei_transaction.Ledger.Process.{kei_balance, admit, settle, process}
use kei_transaction.Ledger.Shape.{HasBlock}
use kei_transaction.Ledger.Supply.Frames.{KeepsChains}
use kei_transaction.Ledger.Effect.{IsValid}
use kei_transaction.Ledger.Effect.OfBlock.{body-effect}
use kei_transaction.Ledger.Conservation.{
  process-IsValid, process-inv, settle-inv, hash_block-IsUpper, hash_block-NotZero, block_known,
}
use kei_transaction.Ledger.Trace.{IsNext}
use kei_transaction.Ledger.Trace.OfBlock.{process-IsNext}
use kei_transaction.Ledger.Reach.{Run, start, next, Run-IsValid}

-- The account after one of its blocks.
abbrev pub Advanced : Ledger → Ledger → Block → Text → Type 0
Advanced s t b hash =
    (account : LedgerAccount) × (lookup (account_of b.body) t.accounts ≡ some account)
    × (lookup hash t.blocks ≡ some b)
    × (lookup (account_of b.body) t.chains
        ≡ some (or_empty (lookup (account_of b.body) s.chains) ++ b ∷ []))
    × (account.frontier ≡ hash)
    × (account.height ≡ height_of (lookup (account_of b.body) s.accounts) + 1)
    × (account.representative ≡ representative_of b.body)
    × (parse_raw (balance_of b.body) ≡ ok account.balance)

-- A block that a ledger did not have, stored after a transition that leaves its chains alone.
record Stored ⦃c : Crypto⦄ (s t : Ledger) (b : Block) (hash : Text) : Type 0 where
  mid : Ledger
  new : ℕ
  hashed : hash_block b.body ≡ ok hash
  fresh : lookup hash s.blocks ≡ none
  parsed : parse_raw (balance_of b.body) ≡ ok new
  keeps : KeepsChains s mid
  is_next : IsNext s b
  shape : t ≡ commit_block b hash new mid

-- What an account can no longer build on: its frontier is another block, and the hash is that of a
-- block, or stands for no block.
abbrev IsTaken : Ledger → Text → Type 0
IsTaken s p = HasBlock s p ⊎ (p ≡ zero_hash)

abbrev IsPast : Text → Text → Ledger → Type 0
IsPast account p s =
    ((r : LedgerAccount) × (lookup account s.accounts ≡ some r) × (r.frontier ≡ p → ⊥))
    × IsTaken s p

module _ ⦃c : Crypto⦄ (law : NoZeroDigest) where
  settled-Stored :
      (s t : Ledger) (now : ℕ) (b : Block) (hash : Text)
      → IsValid s
      → process now b s ≡ ok (hash, t)
      → hash_block b.body ≡ ok hash
      → lookup hash s.blocks ≡ none
      → settle now b hash s ≡ ok t
      → Stored s t b hash
  settled-Stored s t now b hash v e hashed fresh settled =
      let (new, transition, parsed, applied, is) = settle-inv law v now b hash settled in
      let previous = kei_balance s (account_of b.body) in
      let effect =
        body-effect law v now hash fresh (hash_block-IsUpper b.body hash hashed) transition previous
          new b.body applied in
      record {
        mid = transition s;
        new = new;
        hashed = hashed;
        fresh = fresh;
        parsed = parsed;
        keeps = effect.chains;
        is_next = process-IsNext s b now hash t fresh e;
        shape = is;
      }

  process-Stored :
      (s t : Ledger) (now : ℕ) (b : Block) (hash : Text)
      → IsValid s
      → process now b s ≡ ok (hash, t)
      → (t ≡ s) ⊎ Stored s t b hash
  process-Stored s t now b hash v e =
      let (hashed, how) = process-inv law v now b hash e in
      elim how [
        | inl known ↦ inl known
        | inr (fresh, settled) ↦ inr (settled-Stored s t now b hash v e hashed fresh settled)
      ]

  stored-Advanced :
      (s m : Ledger) (b : Block) (hash : Text) (new : ℕ)
      → KeepsChains s m
      → parse_raw (balance_of b.body) ≡ ok new
      → Advanced s (commit_block b hash new m) b hash
  unfolding commit_block stored_account
  stored-Advanced s m b hash new keeps parsed =
      let account = account_of b.body in
      (
        stored_account b hash new (lookup account m.accounts),
        lookup-insert_self account (stored_account b hash new (lookup account m.accounts))
            m.accounts,
        lookup-insert_self hash b m.blocks,
        lookup-insert_self account (or_empty (lookup account m.chains) ++ b ∷ []) m.chains
            ∙ ap (λ d. some (or_empty (lookup account d) ++ b ∷ [])) keeps.chains,
        refl,
        rw keeps.accounts refl,
        refl,
        parsed,
      )

  -- A block that a valid ledger accepts either changes nothing, or builds on the frontier of its
  -- account (or starts its chain), joins the end of the account's chain and the index of blocks, and
  -- becomes the frontier, at a height one more than before, with the balance and the representative
  -- that it states.
  pub process_advances :
      (s t : Ledger) (now : ℕ) (b : Block) (hash : Text)
      → IsValid s
      → process now b s ≡ ok (hash, t)
      → (t ≡ s) ⊎ (IsNext s b × Advanced s t b hash)
  process_advances s t now b hash v e = elim (process-Stored s t now b hash v e) [
    | inl known ↦ inl known
    | inr k ↦ inr (k.is_next, rw k.shape (stored-Advanced s k.mid b hash k.new k.keeps k.parsed))
  ]

  -- A new block has the hash of no block before it, and not that of no block.
  fresh_apart :
      (s : Ledger) (b : Block) (hash p : Text)
      → hash_block b.body ≡ ok hash
      → lookup hash s.blocks ≡ none
      → IsTaken s p
      → hash ≡ p
      → ⊥
  fresh_apart s b hash p hashed fresh (inl there) same = ground arith
  fresh_apart s b hash p hashed fresh (inr none_yet) same =
      hash_block-NotZero law b.body hash hashed (same ∙ none_yet)

  stored-IsTaken :
      (s m : Ledger) (b : Block) (hash p : Text) (new : ℕ)
      → KeepsChains s m
      → IsTaken s p
      → IsTaken (commit_block b hash new m) p
  stored-IsTaken s m b hash p new keeps (inl there) =
      inl (block_known b hash new m p (inr (rw keeps.blocks there)))
  stored-IsTaken s m b hash p new keeps (inr none_yet) = inr none_yet

  -- Storing a block of the account, or of another one that is past the hash.
  stored-frontier :
      (s m : Ledger) (b : Block) (hash account p : Text) (new : ℕ)
      → KeepsChains s m
      → (hash ≡ p → ⊥)
      → (account_of b.body ≡ account)
        ⊎ ((r : LedgerAccount) × (lookup account s.accounts ≡ some r) × (r.frontier ≡ p → ⊥))
      → let t = commit_block b hash new m in
        (r : LedgerAccount) × (lookup account t.accounts ≡ some r) × (r.frontier ≡ p → ⊥)
  unfolding commit_block stored_account
  stored-frontier s m b hash account p new keeps apart (inl same) =
      let stored = stored_account b hash new (lookup (account_of b.body) m.accounts) in
      (
        stored,
        ap (λ k. lookup k (insert (account_of b.body) stored m.accounts)) (sym same)
            ∙ lookup-insert_self (account_of b.body) stored m.accounts,
        apart,
      )
  stored-frontier s m b hash account p new keeps apart (inr (r, found, other)) =
      let stored = stored_account b hash new (lookup (account_of b.body) m.accounts) in
      elim (Bool-cases (account_of b.body == account)) [
        | inl here ↦ (stored, rw (lookup-insert, here) refl, apart)
        | inr there ↦ (r, rw (lookup-insert, there, keeps.accounts) found, other)
      ]

  Run-IsPast :
      {s t : Ledger} (account p : Text)
      → IsValid s
      → Run s t
      → IsPast account p s
      → IsPast account p t
  Run-IsPast account p v start past = past
  Run-IsPast {t = u} account p v (next {t = t} now b hash run e) past =
      let (at, taken) = Run-IsPast account p v run past in
      elim (process-Stored t u now b hash (Run-IsValid law run v) e) [
        | inl known ↦ rw known (at, taken)
        | inr k ↦ rw k.shape (
          stored-frontier t k.mid b hash account p k.new k.keeps
              (fresh_apart t b hash p k.hashed k.fresh taken) (inr at),
          stored-IsTaken t k.mid b hash p k.new k.keeps taken,
        )
      ]

  -- No fork: when a block has been added to a valid ledger, on the hash of a block of the ledger or
  -- on the hash that starts a chain, then after any blocks that follow, one call after another, no
  -- block of the same account on the same previous hash changes the ledger.
  pub no_fork :
      (s t u w : Ledger) (n1 n2 : ℕ) (b1 b2 : Block) (h1 h2 : Text)
      → IsValid s
      → HasBlock s (previous_of b1.body) ⊎ (previous_of b1.body ≡ zero_hash)
      → process n1 b1 s ≡ ok (h1, t)
      → (t ≡ s → ⊥)
      → Run t u
      → account_of b2.body ≡ account_of b1.body
      → previous_of b2.body ≡ previous_of b1.body
      → process n2 b2 u ≡ ok (h2, w)
      → w ≡ u
  no_fork s t u w n1 n2 b1 b2 h1 h2 v taken e1 changed run same_account same_previous e2 =
      let account = account_of b1.body in
      let p = previous_of b1.body in
      let vt = process-IsValid law v n1 b1 h1 e1 in
      elim (process-Stored s t n1 b1 h1 v e1) [
        | inl same ↦ elim (changed same) [ ]
        | inr k ↦
            let past : IsPast account p t = rw k.shape (
              stored-frontier s k.mid b1 h1 account p k.new k.keeps
                  (fresh_apart s b1 h1 p k.hashed k.fresh taken) (inl refl),
              stored-IsTaken s k.mid b1 h1 p k.new k.keeps taken,
            ) in
            let ((r, found, other), _) = Run-IsPast account p vt run past in
            elim (process_advances u w n2 b2 h2 (Run-IsValid law run vt) e2) [
              | inl same ↦ same
              | inr (inl (free, _), _) ↦ cc
              | inr (inr (there, at, on), _) ↦
                  let eq : there ≡ r = cc in
                  elim (other (ap (λ x. x.frontier) (sym eq) ∙ sym on ∙ same_previous)) [ ]
            ]
      ]

  known-process :
      (t : Ledger) (b : Block) (hash : Text) (now : ℕ)
      → hash_block b.body ≡ ok hash
      → contains hash t.blocks ≡ true
      → process now b t ≡ ok (hash, t)
  unfolding process admit
  known-process t b hash now hashed known = rw (hashed, known) refl

  known_before :
      (s t : Ledger) (b : Block) (hash : Text) (now : ℕ)
      → process now b s ≡ ok (hash, t)
      → (contains hash s.blocks ≡ true) × (t ≡ s)
        ⊎ (lookup hash s.blocks ≡ none) × (settle now b hash s ≡ ok t)
  unfolding process admit
  known_before s t b hash now e = ground arith

  -- Replays have no effect: a block that a valid ledger has accepted is accepted again, at any time,
  -- with the same hash, and the ledger stays as it is.
  pub process_again :
      (s t : Ledger) (n1 n2 : ℕ) (b : Block) (hash : Text)
      → IsValid s
      → process n1 b s ≡ ok (hash, t)
      → process n2 b t ≡ ok (hash, t)
  process_again s t n1 n2 b hash v e =
      let hashed = (process-inv law v n1 b hash e).0 in
      known-process t b hash n2 hashed (elim (known_before s t b hash n1 e) [
        | inl (known, same) ↦ rw same known
        | inr (fresh, settled) ↦
            let k = settled-Stored s t n1 b hash v e hashed fresh settled in
            rw k.shape (block_known b hash k.new k.mid hash (inl refl))
      ])

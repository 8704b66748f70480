-- ===== src/Ledger/Trace.antt =====
-- The writes that packages/core/src/mock/ledger.ts makes, as a relation on ledgers: every accepted
-- block is a sequence of them, each with what the code has checked before it.
pub mod OfBlock
pub mod Locks
pub mod Claims
pub mod Assets
use kei_transaction.Common.Tests.{◌⊎◌, ℕ, ◌+◌, ◌≤◌, ◌≡◌, Option, none, some, false, true, not}
use kei_transaction.Common.Eq.{text_eq, pair_eq}
use kei_transaction.Dict.{lookup, insert, add}
use kei_transaction.Js.Text.{Text}
use kei_transaction.Js.Number.{Number}
use kei_transaction.Core.Errors.{ok}
use kei_transaction.Core.Crypto.{hash_block, Crypto}
use kei_transaction.Core.Blocks.{zero_hash, previous_of, account_of, Block}
use kei_transaction.Ledger.State.{
  LedgerAccount, Ledger, AssetRecord, StoredReceivable, CommitRecord, LockRecord, pending,
}
use kei_transaction.Ledger.Guards.{held}
use kei_transaction.Ledger.Commit.{
  commit_credit, commit_debit, create_receivable, consume_receivable, set_circulating, set_lock,
  commit_block,
}
use kei_transaction.Ledger.SwapOps.{add_lock}

-- A new circulation stays within the cap, if the old one does.
abbrev pub KeepsCap : AssetRecord → ℕ → Type 0
KeepsCap a n = (cap : ℕ) → a.max_supply ≡ some cap → a.circulating ≤ cap → n ≤ cap

-- What the two sides have agreed to, which settling does not change.
abbrev pub terms_of : LockRecord → Text × Text × Text × ℕ × Text × ℕ × Option Text × Option Number
terms_of l =
    (l.offer, l.owner, l.asset, l.amount, l.want_asset, l.want_amount, l.counterparty, l.expires_at)

-- The block builds on the frontier of its account, or starts a chain.
abbrev pub IsNext : Ledger → Block → Type 0
IsNext s b =
    ((lookup (account_of b.body) s.accounts ≡ none) × (previous_of b.body ≡ zero_hash))
    ⊎ ((account : LedgerAccount) × (lookup (account_of b.body) s.accounts ≡ some account)
        × (previous_of b.body ≡ account.frontier))

module _ ⦃c : Crypto⦄ where
  pub data Write : Ledger → Ledger → Type 0 where
    keep : {s : Ledger} → Write s s
    create :
        {s : Ledger} (hash : Text) (r : StoredReceivable) → Write s (create_receivable hash r s)
    consume : {s : Ledger} (r : StoredReceivable) → Write s (consume_receivable r s)
    debit :
        {s : Ledger} (account asset : Text) (n : ℕ)
        → n ≤ held s account asset
        → Write s (commit_debit account asset n s)
    credit : {s : Ledger} (account asset : Text) (n : ℕ) → Write s (commit_credit account asset n s)
    circulate :
        {s : Ledger} (a : AssetRecord) (n : ℕ)
        → lookup a.id s.assets ≡ some a
        → KeepsCap a n
        → Write s (set_circulating a n s)
    issue :
        {s : Ledger} (a : AssetRecord) (account : Text) (count : ℕ)
        → lookup a.id s.assets ≡ none
        → a.circulating ≡ 0
        → Write s (record s {
          assets = insert a.id a s.assets;
          issued_by_account = insert account count s.issued_by_account;
        })
    publish :
        {s : Ledger} (p : CommitRecord)
        → lookup p.root s.commits ≡ none
        → Write s (record s { commits = insert p.root p s.commits })
    close :
        {s : Ledger} (k : Text) (p : CommitRecord)
        → lookup k s.commits ≡ some p
        → Write s (record s { commits = insert p.root (record p { closed = true }) s.commits })
    claim :
        {s : Ledger} (account root : Text)
        → Write s (record s { claimed = add (account, root) s.claimed })
    offer :
        {s : Ledger} (hash account : Text) (l : LockRecord)
        → lookup hash s.locks ≡ none
        → Write s (add_lock hash account l s)
    finish :
        {s : Ledger} (old new : LockRecord)
        → lookup old.offer s.locks ≡ some old
        → old.state ≡ pending
        → (new.state ≡ pending → ⊥)
        → terms_of new ≡ terms_of old
        → Write s (set_lock new s)
    store :
        {s : Ledger} (b : Block) (hash : Text) (new : ℕ)
        → hash_block b.body ≡ ok hash
        → lookup hash s.blocks ≡ none
        → IsNext s b
        → Write s (commit_block b hash new s)
    then_ : {s t u : Ledger} → Write s t → Write t u → Write s u

-- ===== src/Ledger/Supply/Writes.antt =====
-- How each write of the ledger (packages/core/src/mock/ledger.ts) moves the units of an asset.
use kei_transaction.Common.Tests.{ℕ, ◌+◌, ◌-◌, ◌≤◌, ◌≡◌, false, none, some, arith, if◌then◌else◌}
use kei_transaction.Common.Eq.{◌==◌, text_eq, pair_eq}
use kei_transaction.Dict.{lookup}
use kei_transaction.Dict.Laws.{lookup-insert}
use kei_transaction.Dict.Sum.{sum-insert, sum-erase}
use kei_transaction.Js.Text.{Text, upper}
use kei_transaction.Ledger.State.{Ledger, AssetRecord, StoredReceivable, LockRecord, pending}
use kei_transaction.Ledger.Guards.{held, or_zero}
use kei_transaction.Ledger.Commit.{
  commit_credit, commit_debit, create_receivable, consume_receivable, set_circulating, set_lock,
}
use kei_transaction.Ledger.SwapOps.{add_lock}
use kei_transaction.Ledger.Supply.{
  count_if, receivable_worth, lock_worth, holding_worth, receivable_total, locked_total, held_total,
  circulating_of, is_pending,
}

module _ (x account asset : Text) (amount : ℕ) (s : Ledger) where
  pub held_total-credit :
      held_total x (commit_credit account asset amount s)
      ≡ held_total x s + count_if (asset == x) amount
  unfolding held_total commit_credit
  held_total-credit = ground (
    arith,
    sum-insert (holding_worth x) (account, asset)
        (or_zero (lookup (account, asset) s.holdings) + amount) s.holdings,
  )

  pub held_total-debit :
      amount ≤ held s account asset
      → held_total x (commit_debit account asset amount s) + count_if (asset == x) amount
        ≡ held_total x s
  unfolding held_total commit_debit
  held_total-debit h = ground (
    arith,
    sum-insert (holding_worth x) (account, asset)
        (or_zero (lookup (account, asset) s.holdings) - amount) s.holdings,
    sum-erase (holding_worth x) (account, asset) s.holdings,
  )

module _ (x hash : Text) (r : StoredReceivable) (s : Ledger) where
  pub receivable_total-create :
      lookup hash s.receivables ≡ none
      → receivable_total x (create_receivable hash r s)
        ≡ receivable_total x s + count_if (r.asset == x) r.amount
  unfolding receivable_total create_receivable
  receivable_total-create h = ground (arith, sum-insert (receivable_worth x) hash r s.receivables)

  pub receivable_total-consume :
      lookup (upper r.hash) s.receivables ≡ some r
      → receivable_total x (consume_receivable r s) + count_if (r.asset == x) r.amount
        ≡ receivable_total x s
  unfolding receivable_total consume_receivable
  receivable_total-consume h =
      ground (arith, sum-erase (receivable_worth x) (upper r.hash) s.receivables)

module _ (x : Text) (a : AssetRecord) (n : ℕ) (s : Ledger) where
  pub circulating_of-set :
      circulating_of x (set_circulating a n s) ≡ (if a.id == x then n else circulating_of x s)
  unfolding circulating_of set_circulating
  circulating_of-set = ground (arith, lookup-insert x a.id (record a { circulating = n }) s.assets)

module _ (x : Text) (new old : LockRecord) (s : Ledger) where
  -- A lock that is consumed gives its units up.
  pub locked_total-settle :
      lookup new.offer s.locks ≡ some old
      → is_pending new.state ≡ false
      → old.state ≡ pending
      → locked_total x (set_lock new s) + count_if (old.asset == x) old.amount ≡ locked_total x s
  unfolding locked_total set_lock
  locked_total-settle found gone was =
      ground (arith, sum-insert (lock_worth x) new.offer new s.locks)

module _ (x hash account : Text) (lock : LockRecord) (s : Ledger) where
  pub locked_total-add :
      lookup hash s.locks ≡ none
      → lock.state ≡ pending
      → locked_total x (add_lock hash account lock s)
        ≡ locked_total x s + count_if (lock.asset == x) lock.amount
  unfolding locked_total add_lock
  locked_total-add fresh open' = ground (arith, sum-insert (lock_worth x) hash lock s.locks)

-- ===== src/Ledger/Supply/Frames.antt =====
-- Each write of the ledger (packages/core/src/mock/ledger.ts) on all the totals at once, and the
-- indexes that it leaves alone.
use kei_transaction.Common.Tests.{
  ℕ, ◌+◌, ◌≤◌, ◌≡◌, ◌∙◌, refl, false, none, some, arith, if◌then◌else◌,
}
use kei_transaction.Common.Eq.{◌==◌, text_eq, pair_eq}
use kei_transaction.Dict.{lookup}
use kei_transaction.Js.Text.{Text, upper}
use kei_transaction.Ledger.State.{Ledger, AssetRecord, StoredReceivable, LockRecord, pending}
use kei_transaction.Ledger.Guards.{held}
use kei_transaction.Ledger.Commit.{
  commit_credit, commit_debit, create_receivable, consume_receivable, set_circulating, set_lock,
}
use kei_transaction.Ledger.SwapOps.{add_lock}
use kei_transaction.Ledger.Supply.{
  count_if, receivable_total, locked_total, held_total, circulating_of, burned_total, is_pending,
}
use kei_transaction.Ledger.Supply.Writes.{
  held_total-credit, held_total-debit, receivable_total-create, receivable_total-consume,
  circulating_of-set, locked_total-settle, locked_total-add,
}

-- The indexes that no transition writes.
pub record KeepsChains (s t : Ledger) : Type 0 where
  pub accounts : t.accounts ≡ s.accounts
  pub blocks : t.blocks ≡ s.blocks
  pub chains : t.chains ≡ s.chains

pub KeepsChains-trans : {s t u : Ledger} → KeepsChains s t → KeepsChains t u → KeepsChains s u
KeepsChains-trans h k = record {
  accounts = k.accounts ∙ h.accounts;
  blocks = k.blocks ∙ h.blocks;
  chains = k.chains ∙ h.chains;
}

-- The totals of `t` beside those of `s`.
abbrev pub SameCirculating : Text → Ledger → Ledger → Type 0
SameCirculating x s t =
    (circulating_of x t ≡ circulating_of x s) × (burned_total t ≡ burned_total s)

abbrev pub SameHeld : Text → Ledger → Ledger → Type 0
SameHeld x s t = held_total x t ≡ held_total x s

abbrev pub SameReceivable : Text → Ledger → Ledger → Type 0
SameReceivable x s t = receivable_total x t ≡ receivable_total x s

abbrev pub SameLocked : Text → Ledger → Ledger → Type 0
SameLocked x s t = locked_total x t ≡ locked_total x s

module _ (account asset : Text) (amount : ℕ) (s : Ledger) where
  pub KeepsChains-credit : KeepsChains s (commit_credit account asset amount s)
  unfolding commit_credit
  KeepsChains-credit = record { accounts = refl; blocks = refl; chains = refl }

  pub KeepsChains-debit : KeepsChains s (commit_debit account asset amount s)
  unfolding commit_debit
  KeepsChains-debit = ground arith

  pub receivables-debit : (commit_debit account asset amount s).receivables ≡ s.receivables
  unfolding commit_debit
  receivables-debit = ground arith

  pub locks-debit : (commit_debit account asset amount s).locks ≡ s.locks
  unfolding commit_debit
  locks-debit = ground arith

  pub assets-debit : (commit_debit account asset amount s).assets ≡ s.assets
  unfolding commit_debit
  assets-debit = ground arith

  pub locks-credit : (commit_credit account asset amount s).locks ≡ s.locks
  unfolding commit_credit
  locks-credit = refl

  issued-debit : (commit_debit account asset amount s).issued_by_account ≡ s.issued_by_account
  unfolding commit_debit
  issued-debit = ground arith

  module _ (x : Text) where
    pub totals-credit :
        let t = commit_credit account asset amount s in
        SameCirculating x s t
        × SameReceivable x s t
        × SameLocked x s t
        × (held_total x t ≡ held_total x s + count_if (asset == x) amount)
    unfolding commit_credit circulating_of receivable_total locked_total burned_total
    totals-credit = ((refl, refl), refl, refl, held_total-credit x account asset amount s)

    pub totals-debit :
        amount ≤ held s account asset
        → let t = commit_debit account asset amount s in
          SameCirculating x s t
          × SameReceivable x s t
          × SameLocked x s t
          × (held_total x t + count_if (asset == x) amount ≡ held_total x s)
    unfolding circulating_of receivable_total locked_total burned_total
    totals-debit h = (
      (rw assets-debit, rw issued-debit),
      rw receivables-debit,
      rw locks-debit,
      held_total-debit x account asset amount s h,
    )

module _ (hash : Text) (r : StoredReceivable) (s : Ledger) where
  pub KeepsChains-create : KeepsChains s (create_receivable hash r s)
  unfolding create_receivable
  KeepsChains-create = record { accounts = refl; blocks = refl; chains = refl }

  pub locks-create : (create_receivable hash r s).locks ≡ s.locks
  unfolding create_receivable
  locks-create = refl

  pub KeepsChains-consume : KeepsChains s (consume_receivable r s)
  unfolding consume_receivable
  KeepsChains-consume = record { accounts = refl; blocks = refl; chains = refl }

  module _ (x : Text) where
    pub totals-create :
        lookup hash s.receivables ≡ none
        → let t = create_receivable hash r s in
          SameCirculating x s t
          × SameHeld x s t
          × SameLocked x s t
          × (receivable_total x t ≡ receivable_total x s + count_if (r.asset == x) r.amount)
    unfolding create_receivable circulating_of held_total locked_total burned_total
    totals-create h = ((refl, refl), refl, refl, receivable_total-create x hash r s h)

module _ (r : StoredReceivable) (s : Ledger) (x : Text) where
  pub totals-consume :
      lookup (upper r.hash) s.receivables ≡ some r
      → let t = consume_receivable r s in
        SameCirculating x s t
        × SameHeld x s t
        × SameLocked x s t
        × (receivable_total x t + count_if (r.asset == x) r.amount ≡ receivable_total x s)
  unfolding consume_receivable circulating_of held_total locked_total burned_total
  totals-consume h = ((refl, refl), refl, refl, receivable_total-consume x r.hash r s h)

module _ (a : AssetRecord) (n : ℕ) (s : Ledger) where
  pub KeepsChains-set : KeepsChains s (set_circulating a n s)
  unfolding set_circulating
  KeepsChains-set = record { accounts = refl; blocks = refl; chains = refl }

  pub receivables-set : (set_circulating a n s).receivables ≡ s.receivables
  unfolding set_circulating
  receivables-set = refl

  module _ (x : Text) where
    pub totals-set :
        let t = set_circulating a n s in
        SameHeld x s t
        × SameReceivable x s t
        × SameLocked x s t
        × (burned_total t ≡ burned_total s)
        × (circulating_of x t ≡ (if a.id == x then n else circulating_of x s))
    unfolding set_circulating held_total receivable_total locked_total burned_total
    totals-set = (refl, refl, refl, refl, circulating_of-set x a n s)

module _ (new : LockRecord) (s : Ledger) where
  pub KeepsChains-set_lock : KeepsChains s (set_lock new s)
  unfolding set_lock
  KeepsChains-set_lock = record { accounts = refl; blocks = refl; chains = refl }

  pub KeepsChains-add_lock : (hash account : Text) → KeepsChains s (add_lock hash account new s)
  unfolding add_lock
  KeepsChains-add_lock hash account = record { accounts = refl; blocks = refl; chains = refl }

  module _ (x : Text) where
    pub totals-set_lock :
        (old : LockRecord)
        → lookup new.offer s.locks ≡ some old
        → is_pending new.state ≡ false
        → old.state ≡ pending
        → let t = set_lock new s in
          SameCirculating x s t
          × SameHeld x s t
          × SameReceivable x s t
          × (locked_total x t + count_if (old.asset == x) old.amount ≡ locked_total x s)
    unfolding set_lock circulating_of held_total receivable_total burned_total
    totals-set_lock old found gone was =
        ((refl, refl), refl, refl, locked_total-settle x new old s found gone was)

    pub totals-add_lock :
        (hash account : Text)
        → lookup hash s.locks ≡ none
        → new.state ≡ pending
        → let t = add_lock hash account new s in
          SameCirculating x s t
          × SameHeld x s t
          × SameReceivable x s t
          × (locked_total x t ≡ locked_total x s + count_if (new.asset == x) new.amount)
    unfolding add_lock circulating_of held_total receivable_total burned_total
    totals-add_lock hash account fresh open' =
        ((refl, refl), refl, refl, locked_total-add x hash account new s fresh open')

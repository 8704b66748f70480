-- ===== src/Ledger/Supply.antt =====
-- Where the units of an asset are: in holdings, in receivables and in pending locks; and how each
-- write of the ledger (packages/core/src/mock/ledger.ts) moves them.
pub mod Writes
pub mod Frames
use kei_transaction.Common.Tests.{
  ℕ, zero, suc, ◌+◌, ◌*◌, ◌≡◌, Bool, true, false, ◌&&◌, Option, none, some, arith, if◌then◌else◌,
}
use kei_transaction.Common.Eq.{◌==◌, text_eq, list_beq_iff, pair_eq}
use kei_transaction.Dict.{lookup}
use kei_transaction.Dict.Sum.{sum_of}
use kei_transaction.Js.Text.{Text}
use kei_transaction.Core.Amount.{issuance_burn}
use kei_transaction.Core.Blocks.{kei_asset}
use kei_transaction.Ledger.State.{
  Ledger, LedgerAccount, AssetRecord, StoredReceivable, LockRecord, SwapState, pending, accepted,
  cancelled,
}

abbrev pub count_if : Bool → ℕ → ℕ
count_if b n = if b then n else 0

pub count_if_eq : (a x : Text) (n : ℕ) → a ≡ x → count_if (a == x) n ≡ n
count_if_eq a x n e = ground (arith, list_beq_iff a x)

pub count_if_ne : (a x : Text) (n : ℕ) → (a ≡ x → ⊥) → count_if (a == x) n ≡ 0
count_if_ne a x n e = ground (arith, list_beq_iff a x)

abbrev pub is_pending : SwapState → Bool
is_pending pending = true
is_pending accepted = false
is_pending cancelled = false

abbrev pub receivable_worth : Text → Text → StoredReceivable → ℕ
receivable_worth x k r = count_if (r.asset == x) r.amount

abbrev pub lock_worth : Text → Text → LockRecord → ℕ
lock_worth x k l = count_if (is_pending l.state && l.asset == x) l.amount

abbrev pub holding_worth : Text → Text × Text → ℕ → ℕ
holding_worth x k n = count_if (k.1 == x) n

-- Units of `x` on their way to an account, and locked by an offer that nobody has taken.
unfoldable pub receivable_total : Text → Ledger → ℕ
receivable_total x s = sum_of (receivable_worth x) s.receivables

unfoldable pub locked_total : Text → Ledger → ℕ
locked_total x s = sum_of (lock_worth x) s.locks

unfoldable pub held_total : Text → Ledger → ℕ
held_total x s = sum_of (holding_worth x) s.holdings

abbrev circulating_in : Option AssetRecord → ℕ
circulating_in none = 0
circulating_in (some a) = a.circulating

-- What the record of `x` says is in circulation; 0 where there is no such asset.
unfoldable pub circulating_of : Text → Ledger → ℕ
circulating_of x s = circulating_in (lookup x s.assets)

-- The Kei in account balances.
unfoldable pub balance_total : Ledger → ℕ
balance_total s = sum_of (λ k (a : LedgerAccount). a.balance) s.accounts

-- What an account that has issued `n` assets has burned: 1 Kei, 2 Kei, up to n Kei.
unfoldable pub burned_for : ℕ → ℕ
burned_for zero = 0
burned_for (suc n) = burned_for n + issuance_burn n

unfoldable pub burned_total : Ledger → ℕ
unfolding burned_for
burned_total s = sum_of (λ k n. burned_for n) s.issued_by_account

-- Every unit of every asset other than Kei is accounted for.
abbrev pub IsBalanced : Ledger → Type 0
IsBalanced s =
    (x : Text)
    → (x ≡ kei_asset → ⊥)
    → circulating_of x s ≡ held_total x s + receivable_total x s + locked_total x s

-- All the Kei there is, burned Kei included.
abbrev pub kei_total : Ledger → ℕ
kei_total s =
    balance_total s + receivable_total kei_asset s + locked_total kei_asset s + burned_total s

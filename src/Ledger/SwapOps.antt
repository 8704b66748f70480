-- ===== src/Ledger/SwapOps.antt =====
-- packages/core/src/mock/ledger.ts: the three legs of a swap in `applyAsset`.
pub mod Accepted
use kei_transaction.Common.Tests.{
  ℕ, ◌+◌, Bool, true, false, not, ◌&&◌, ◌||◌, Option, none, some, [], ◌∷◌, ◌++◌, leb, ltb, eqb,
  if◌then◌else◌,
}
use kei_transaction.Common.Eq.{◌==◌, text_eq}
use kei_transaction.Dict.{lookup, insert}
use kei_transaction.Js.Text.{Text, upper}
use kei_transaction.Js.Number.{Number, whole, negative, fraction, not_finite, max_safe_integer}
use kei_transaction.Core.Errors.{Code, Result, ok, fail_if, ◌>>=◌, ◌>>◌}
use kei_transaction.Core.Crypto.{Crypto}
use kei_transaction.Core.Address.{assert_address}
use kei_transaction.Core.Blocks.{SwapOfferOp, SwapAcceptOp, SwapCancelOp, kei_asset}
use kei_transaction.Ledger.State.{
  Ledger, AssetRecord, StoredReceivable, LockRecord, pending, accepted, cancelled, LedgerTransition,
}
use kei_transaction.Ledger.Guards.{
  or_empty, parse_raw, require_positive, require_delta, require_asset, enforce_transfer_policy,
  require_credit, require_debit, swap_asset, require_swappable, require_lock, require_open_lock,
}
use kei_transaction.Ledger.Commit.{
  commit_credit, commit_debit, create_receivable, set_lock, height_of,
}

-- A positive safe integer.
unfoldable pub good_expiry : Option Number → Bool
good_expiry none = true
good_expiry (some (whole n)) = not (eqb n 0) && leb n max_safe_integer
good_expiry (some (negative n)) = false
good_expiry (some (fraction _)) = false
good_expiry (some not_finite) = false

abbrev pub optional_address : ⦃c : Crypto⦄ → Option Text → Result (Option Text)
optional_address none = ok none
optional_address (some address) = do checked ← assert_address address; ok (some checked)

abbrev pub is_account : Option Text → Text → Bool
is_account none account = false
is_account (some other) account = other == account

-- The id of a leg: none is Kei.
abbrev pub leg_id : Option AssetRecord → Text
leg_id none = kei_asset
leg_id (some asset) = asset.id

-- The asset of a lock: none is Kei.
unfoldable pub lock_asset : Ledger → Text → Result (Option AssetRecord)
lock_asset s asset =
    if asset == kei_asset then ok none else do found ← require_asset s asset; ok (some found)

-- What a leg pays: out of the Kei balance, or out of the account's holdings.
unfoldable pub pay_leg : Ledger → Text → ℕ → ℕ → Option AssetRecord → ℕ → Result (Unit {0})
pay_leg s account previous new_balance none amount = do
  fail_if (ltb previous amount) Code.insufficient_kei
  require_delta previous new_balance 0 amount
pay_leg s account previous new_balance (some asset) amount = do
  require_delta previous new_balance 0 0
  require_debit s account asset amount

abbrev pub check_policy : Option AssetRecord → Text → Text → Result (Unit {0})
check_policy none from to = ok tt
check_policy (some asset) from to = enforce_transfer_policy asset from to

-- `if (asset !== null) this.commitDebit(…)`
unfoldable pub debit_leg : Option AssetRecord → Text → ℕ → LedgerTransition
debit_leg none account amount t = t
debit_leg (some asset) account amount t = commit_debit account asset.id amount t

unfoldable pub credit_leg : Option AssetRecord → Text → ℕ → LedgerTransition
credit_leg none account amount t = t
credit_leg (some asset) account amount t = commit_credit account asset.id amount t

-- What a cancel checks of the asset that comes back.
unfoldable pub refund_leg : Ledger → Text → ℕ → ℕ → LockRecord → Result (Option AssetRecord)
refund_leg s account previous new_balance lock =
    if lock.asset == kei_asset
    then (do require_delta previous new_balance lock.amount 0; ok none)
    else do
      require_delta previous new_balance 0 0
      asset ← require_asset s lock.asset
      require_credit s account asset
      ok (some asset)

unfoldable pub add_lock : Text → Text → LockRecord → LedgerTransition
add_lock hash account lock t = record t {
  locks = insert hash lock t.locks;
  swaps_by_account =
      insert account (or_empty (lookup account t.swaps_by_account) ++ hash ∷ []) t.swaps_by_account;
}

-- The two receivables of a settled swap.
abbrev pub payment_of : Text → Text → LockRecord → StoredReceivable
payment_of hash account lock = record {
  hash = hash;
  from = account;
  to = lock.owner;
  asset = lock.want_asset;
  amount = lock.want_amount;
  memo = none;
}

abbrev pub offered_of : Text → LockRecord → StoredReceivable
offered_of account lock = record {
  hash = lock.offer;
  from = lock.owner;
  to = account;
  asset = lock.asset;
  amount = lock.amount;
  memo = none;
}

abbrev pub new_lock :
    ℕ
    → Ledger
    → Text
    → Text
    → SwapOfferOp
    → Option AssetRecord
    → Option AssetRecord
    → ℕ
    → ℕ
    → Option Text
    → LockRecord
new_lock now s account hash op offered wanted amount want_amount counterparty = record {
  offer = hash;
  owner = account;
  asset = leg_id offered;
  amount = amount;
  want_asset = leg_id wanted;
  want_amount = want_amount;
  counterparty = counterparty;
  expires_at = op.expires_at;
  state = pending;
  settled_by = none;
  accepted_by = none;
  height = height_of (lookup account s.accounts) + 1;
  seen_at = now;
  settled_at = none;
}

abbrev pub accepted_lock : ℕ → Text → Text → LockRecord → LockRecord
accepted_lock now account hash lock = record lock {
  state = accepted;
  accepted_by = some account;
  settled_by = some hash;
  settled_at = some now;
}

abbrev pub cancelled_lock : ℕ → Text → LockRecord → LockRecord
cancelled_lock now hash lock = record lock {
  state = cancelled;
  settled_by = some hash;
  settled_at = some now;
}

module _ ⦃c : Crypto⦄ (now : ℕ) (s : Ledger) (account : Text) (previous new_balance : ℕ) where
  unfoldable pub apply_swap_offer : SwapOfferOp → Text → Result LedgerTransition
  apply_swap_offer op hash = do
    offered ← swap_asset s op.asset
    wanted ← swap_asset s op.want_asset
    amount ← require_positive op.amount
    want_amount ← require_positive op.want_amount
    counterparty ← optional_address op.counterparty
    fail_if (is_account counterparty account) Code.self_swap
    fail_if (not (good_expiry op.expires_at)) Code.bad_expiry
    require_swappable offered account counterparty
    require_swappable wanted account counterparty
    pay_leg s account previous new_balance offered amount
    ok (λ t.
        add_lock hash account
          (new_lock now s account hash op offered wanted amount want_amount counterparty)
          (debit_leg offered account amount t))

  unfoldable pub apply_swap_accept : SwapAcceptOp → Text → Result LedgerTransition
  apply_swap_accept op hash = do
    lock ← require_lock s op.offer
    fail_if (lock.owner == account) Code.self_accept
    require_open_lock lock
    fail_if (elim lock.counterparty [ none ↦ false | some only ↦ not (only == account) ])
        Code.not_the_counterparty
    restated ← parse_raw op.amount
    fail_if (not (upper op.asset == lock.want_asset) || not (eqb restated lock.want_amount))
        Code.swap_terms_mismatch
    offered ← lock_asset s lock.asset
    wanted ← lock_asset s lock.want_asset
    check_policy offered lock.owner account
    check_policy wanted account lock.owner
    pay_leg s account previous new_balance wanted lock.want_amount
    ok (λ t. set_lock (accepted_lock now account hash lock) (
        create_receivable lock.offer (offered_of account lock) (
          create_receivable hash (payment_of hash account lock)
            (debit_leg wanted account lock.want_amount t))))

  unfoldable pub apply_swap_cancel : SwapCancelOp → Text → Result LedgerTransition
  apply_swap_cancel op hash = do
    lock ← require_lock s op.offer
    fail_if (not (lock.owner == account)) Code.not_your_offer
    require_open_lock lock
    refund ← refund_leg s account previous new_balance lock
    ok (λ t. set_lock (cancelled_lock now hash lock) (credit_leg refund account lock.amount t))

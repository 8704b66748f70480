-- ===== src/Ledger/SwapOps/Accepted.antt =====
-- What a swap leg of packages/core/src/mock/ledger.ts has passed when it is accepted, and the
-- transition that it then is.
use kei_transaction.Common.Tests.{ℕ, ◌≡◌, true, false, Option, arith}
use kei_transaction.Common.Eq.{◌==◌, text_eq}
use kei_transaction.Js.Text.{Text, upper}
use kei_transaction.Core.Errors.{ok}
use kei_transaction.Core.Crypto.{Crypto}
use kei_transaction.Core.Blocks.{SwapOfferOp, SwapAcceptOp, SwapCancelOp}
use kei_transaction.Ledger.State.{Ledger, LedgerTransition, AssetRecord, LockRecord, pending}
use kei_transaction.Ledger.Guards.{
  parse_raw, require_positive, require_lock, require_open_lock, swap_asset,
}
use kei_transaction.Ledger.Commit.{create_receivable, set_lock}
use kei_transaction.Ledger.SwapOps.{
  new_lock, optional_address, pay_leg, lock_asset, refund_leg, debit_leg, credit_leg, add_lock,
  check_policy, accepted_lock, cancelled_lock, payment_of, offered_of, apply_swap_offer,
  apply_swap_accept, apply_swap_cancel,
}

pub require_open_lock-pending :
    (lock : LockRecord) → require_open_lock lock ≡ ok tt → lock.state ≡ pending
unfolding require_open_lock
require_open_lock-pending lock e = ground arith

module _ ⦃c : Crypto⦄ (now : ℕ) (s : Ledger) (account : Text) (previous new : ℕ) where
  module _ (hash : Text) (t : LedgerTransition) where
    pub offer-inv :
        (op : SwapOfferOp)
        → apply_swap_offer now s account previous new op hash ≡ ok t
        → (offered : Option AssetRecord) × (wanted : Option AssetRecord) × (amount : ℕ)
          × (want_amount : ℕ) × (counterparty : Option Text) × (swap_asset s op.asset ≡ ok offered)
          × (swap_asset s op.want_asset ≡ ok wanted)
          × (require_positive op.amount ≡ ok amount)
          × (require_positive op.want_amount ≡ ok want_amount)
          × (optional_address op.counterparty ≡ ok counterparty)
          × (pay_leg s account previous new offered amount ≡ ok tt)
          × (t ≡ λ u.
              add_lock hash account
                (new_lock now s account hash op offered wanted amount want_amount counterparty)
                (debit_leg offered account amount u))
    unfolding apply_swap_offer
    offer-inv op e = ground arith

    pub accept-inv :
        (op : SwapAcceptOp)
        → apply_swap_accept now s account previous new op hash ≡ ok t
        → (lock : LockRecord) × (offered : Option AssetRecord) × (wanted : Option AssetRecord)
          × (require_lock s op.offer ≡ ok lock)
          × (lock_asset s lock.asset ≡ ok offered)
          × (lock_asset s lock.want_asset ≡ ok wanted)
          × ((lock.owner == account) ≡ false)
          × (require_open_lock lock ≡ ok tt)
          × (pay_leg s account previous new wanted lock.want_amount ≡ ok tt)
          × (check_policy offered lock.owner account ≡ ok tt)
          × (check_policy wanted account lock.owner ≡ ok tt)
          × (parse_raw op.amount ≡ ok lock.want_amount)
          × ((upper op.asset == lock.want_asset) ≡ true)
          × (t ≡ λ u. set_lock (accepted_lock now account hash lock) (
              create_receivable lock.offer (offered_of account lock) (
                create_receivable hash
                  (payment_of hash account lock)
                  (debit_leg wanted account lock.want_amount u))))
    unfolding apply_swap_accept
    accept-inv op e = ground arith

    pub cancel-inv :
        (op : SwapCancelOp)
        → apply_swap_cancel now s account previous new op hash ≡ ok t
        → (lock : LockRecord) × (refund : Option AssetRecord) × (require_lock s op.offer ≡ ok lock)
          × (refund_leg s account previous new lock ≡ ok refund)
          × ((lock.owner == account) ≡ true)
          × (require_open_lock lock ≡ ok tt)
          × (t ≡ λ u.
              set_lock (cancelled_lock now hash lock) (credit_leg refund account lock.amount u))
    unfolding apply_swap_cancel
    cancel-inv op e = ground arith

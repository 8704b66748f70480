-- ===== src/Ledger/StateOps.antt =====
-- packages/core/src/mock/ledger.ts: `applyState`, the blocks that move Kei.
use kei_transaction.Common.Tests.{ℕ, ◌+◌, ◌-◌, Bool, true, false, not, Option, none, some, leb, eqb}
use kei_transaction.Common.Eq.{text_eq}
use kei_transaction.Dict.{mem}
use kei_transaction.Js.Text.{Text}
use kei_transaction.Core.Errors.{Code, Result, ok, fail_if, ◌>>=◌, ◌>>◌}
use kei_transaction.Core.Hex.{is_hex}
use kei_transaction.Core.Crypto.{Crypto}
use kei_transaction.Core.Address.{address_from_public_key}
use kei_transaction.Core.Blocks.{
  StateBlockBody, StateSubtype, open_chain, send, receive, change, other_subtype, kei_asset,
}
use kei_transaction.Ledger.State.{Ledger, StoredReceivable, LedgerTransition, noop_transition}
use kei_transaction.Ledger.Guards.{require_receivable}
use kei_transaction.Ledger.Commit.{create_receivable, consume_receivable}

abbrev pub is_some {ℓ} : {A : Type ℓ} → Option A → Bool
is_some none = false
is_some (some _) = true

module _ ⦃c : Crypto⦄ (s : Ledger) (body : StateBlockBody) (previous new_balance : ℕ) where
  unfoldable pub apply_send : Text → Result LedgerTransition
  apply_send hash = do
    fail_if (mem body.account s.reserve_accounts) Code.reserve_locked
    fail_if (is_some body.memo) Code.no_memo_yet
    fail_if (not (is_hex body.link (some 32))) Code.bad_link
    fail_if (leb previous new_balance) Code.bad_send
    to ← address_from_public_key body.link
    let amount = previous - new_balance
    let receivable : StoredReceivable = record {
      hash = hash;
      from = body.account;
      to = to;
      asset = kei_asset;
      amount = amount;
      memo = none;
    }
    ok (create_receivable hash receivable)

  -- The cases 'open' and 'receive'.
  unfoldable pub apply_receive : Result LedgerTransition
  apply_receive = do
    receivable ← require_receivable s body.link body.account kei_asset
    fail_if (not (eqb new_balance (previous + receivable.amount))) Code.bad_receive
    ok (consume_receivable receivable)

  unfoldable pub apply_change : Result LedgerTransition
  apply_change = do fail_if (not (eqb new_balance previous)) Code.bad_change; ok noop_transition

  -- Any other subtype falls through the `switch`, with no check of the balance.
  unfoldable pub apply_subtype : StateSubtype → Text → Result LedgerTransition
  apply_subtype send hash = apply_send hash
  apply_subtype open_chain hash = apply_receive
  apply_subtype receive hash = apply_receive
  apply_subtype change hash = apply_change
  apply_subtype (other_subtype kind) hash = ok noop_transition

  unfoldable pub apply_state : Text → Result LedgerTransition
  unfolding apply_subtype
  apply_state hash = apply_subtype body.subtype hash

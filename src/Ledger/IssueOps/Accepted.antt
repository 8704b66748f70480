-- ===== src/Ledger/IssueOps/Accepted.antt =====
-- What an issuance of packages/core/src/mock/ledger.ts has passed when it is accepted.
use kei_transaction.Common.Tests.{ℕ, ◌+◌, ◌≡◌, Option, none, some, arith}
use kei_transaction.Common.Eq.{text_eq}
use kei_transaction.Dict.{lookup}
use kei_transaction.Js.Text.{Text}
use kei_transaction.Core.Errors.{ok}
use kei_transaction.Core.Amount.{issuance_burn}
use kei_transaction.Core.Crypto.{Crypto}
use kei_transaction.Core.Merkle.{derive_asset_id}
use kei_transaction.Core.Address.{public_key_from_address}
use kei_transaction.Core.Blocks.{IssueOp, TransferPolicy, SwapPolicy, normalize_symbol}
use kei_transaction.Ledger.State.{Ledger, LedgerTransition}
use kei_transaction.Ledger.IssueOps.{
  issued, new_asset, check_issue_burn, record_issue, apply_issue, transfer_policy, swap_policy,
  parse_max_supply,
}

module _ ⦃c : Crypto⦄ (s : Ledger) (account : Text) (previous new : ℕ) where
  pub burn_paid :
      check_issue_burn s account previous new ≡ ok tt
      → new + issuance_burn (issued s account) ≡ previous
  unfolding check_issue_burn
  burn_paid e = ground arith

  pub issue-inv :
      (op : IssueOp) (t : LedgerTransition)
      → apply_issue s account previous new op ≡ ok t
      → (symbol : Text) × (public_key : Text) × (id : Text) × (transfer : TransferPolicy)
        × (swap : SwapPolicy) × (max_supply : Option ℕ) × (normalize_symbol op.symbol ≡ ok symbol)
        × (public_key_from_address account ≡ ok public_key)
        × (derive_asset_id public_key symbol ≡ ok id)
        × (transfer_policy op.transfer ≡ some transfer)
        × (swap_policy op.swap ≡ some swap)
        × (parse_max_supply op.max_supply ≡ ok max_supply)
        × (lookup id s.assets ≡ none)
        × (t
            ≡ record_issue s account previous new
                (new_asset account op symbol id transfer swap max_supply))
  unfolding apply_issue
  issue-inv op t e = ground arith

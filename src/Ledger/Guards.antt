-- ===== src/Ledger/Guards.antt =====
-- packages/core/src/mock/ledger.ts: the checks, which only read the ledger.
pub mod Decimal
use kei_transaction.Common.Tests.{
  ℕ, ◌+◌, Bool, false, not, ◌&&◌, ◌||◌, Option, none, some, List, leb, ltb, eqb, if◌then◌else◌,
}
use kei_transaction.Common.Eq.{◌==◌, text_eq, pair_eq}
use kei_transaction.Common.Lists.{length}
use kei_transaction.Dict.{lookup, mem}
use kei_transaction.Js.Text.{Text, upper}
use kei_transaction.Js.Number.{is_decimal, decimal_from}
use kei_transaction.Core.Errors.{Code, Result, ok, err, fail_if, or_fail, ◌>>=◌, ◌>>◌}
use kei_transaction.Core.Blocks.{kei_asset, anyone, issuer_only, soulbound, TransferPolicy}
use kei_transaction.Ledger.State.{
  Ledger, AssetRecord, StoredReceivable, LockRecord, SwapState, pending, accepted, cancelled,
}

-- `x ?? 0n`
abbrev pub or_zero : Option ℕ → ℕ
or_zero none = 0
or_zero (some n) = n

-- `x ?? []` and `x ?? new Set()`
abbrev pub or_empty {ℓ} : {A : Type ℓ} → Option (List A) → List A
or_empty none = List.[]
or_empty (some xs) = xs

abbrev pub max_assets_per_account : ℕ
max_assets_per_account = 1_024

unfoldable pub parse_raw : Text → Result ℕ
parse_raw value = do fail_if (not (is_decimal value)) Code.bad_amount; ok (decimal_from 0 value)

unfoldable pub require_positive : Text → Result ℕ
require_positive value = do
  amount ← parse_raw value
  fail_if (eqb amount 0) Code.bad_amount
  ok amount

-- `requireDelta(previous, next, gain - loss)`: next = previous + gain - loss over the integers.
unfoldable pub require_delta : ℕ → ℕ → ℕ → ℕ → Result (Unit {0})
require_delta previous next gain loss =
    fail_if (not (eqb (next + loss) (previous + gain))) Code.bad_asset_balance

unfoldable pub require_asset : Ledger → Text → Result AssetRecord
require_asset s asset = or_fail (lookup (upper asset) s.assets) Code.no_such_asset

unfoldable pub require_headroom : AssetRecord → ℕ → Result (Unit {0})
require_headroom asset amount = elim asset.max_supply [
  | none ↦ ok tt
  | some cap ↦ fail_if (ltb cap (asset.circulating + amount)) Code.over_max_supply
]

-- The `switch` on `asset.transfer`, with what 'issuer-only' asks.
abbrev pub permits : TransferPolicy → Bool → Result (Unit {0})
permits anyone _ = ok tt
permits issuer_only to_or_from_issuer = fail_if (not to_or_from_issuer) Code.transfer_not_permitted
permits soulbound _ = err Code.transfer_not_permitted

unfoldable pub enforce_transfer_policy : AssetRecord → Text → Text → Result (Unit {0})
enforce_transfer_policy asset from to =
    permits asset.transfer (from == asset.issuer || to == asset.issuer)

unfoldable pub require_credit : Ledger → Text → AssetRecord → Result (Unit {0})
require_credit s account asset = elim (lookup account s.holdings_by_account) [
  | none ↦ ok tt
  | some owned ↦
      fail_if (not (mem asset.id owned) && leb max_assets_per_account (length owned))
        Code.too_many_assets
]

unfoldable pub held : Ledger → Text → Text → ℕ
held s account asset = or_zero (lookup (account, asset) s.holdings)

unfoldable pub require_debit : Ledger → Text → AssetRecord → ℕ → Result (Unit {0})
unfolding held
require_debit s account asset amount =
    fail_if (ltb (held s account asset.id) amount) Code.insufficient_balance

unfoldable pub require_receivable_any_asset : Ledger → Text → Text → Result StoredReceivable
require_receivable_any_asset s link account = do
  receivable ← or_fail (lookup (upper link) s.receivables) Code.no_such_receivable
  fail_if (not (receivable.to == account)) Code.not_recipient
  ok receivable

unfoldable pub require_receivable : Ledger → Text → Text → Text → Result StoredReceivable
unfolding require_receivable_any_asset
require_receivable s link account asset = do
  receivable ← require_receivable_any_asset s link account
  fail_if (not (receivable.asset == asset)) Code.wrong_asset
  ok receivable

-- An asset that a swap leg names: none is Kei itself.
unfoldable pub swap_asset : Ledger → Text → Result (Option AssetRecord)
unfolding require_asset
swap_asset s asset =
    let id = upper asset in
    do
      fail_if (eqb (length id) 0) Code.bad_swap
      if id == kei_asset then ok none else do named ← require_asset s id; ok (some named)

abbrev pub names_issuer : Option Text → AssetRecord → Bool
names_issuer none asset = false
names_issuer (some account) asset = account == asset.issuer

unfoldable pub require_swappable : Option AssetRecord → Text → Option Text → Result (Unit {0})
require_swappable none offerer counterparty = ok tt
require_swappable (some asset) offerer counterparty =
    permits asset.transfer (offerer == asset.issuer || names_issuer counterparty asset)

unfoldable pub require_lock : Ledger → Text → Result LockRecord
require_lock s offer = or_fail (lookup (upper offer) s.locks) Code.no_such_offer

abbrev open_lock : SwapState → Result (Unit {0})
open_lock pending = ok tt
open_lock accepted = err Code.offer_taken
open_lock cancelled = err Code.offer_cancelled

unfoldable pub require_open_lock : LockRecord → Result (Unit {0})
require_open_lock lock = open_lock lock.state

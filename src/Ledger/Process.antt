-- ===== src/Ledger/Process.antt =====
-- packages/core/src/mock/ledger.ts: `applyAsset`, `validateEnvelope` and `process`. `process` awaits
-- `verifyHash` between its checks of the envelope and the rest: `admit` is what runs before the await
-- and `settle` what runs after it, so that an interleaving of two calls is a sequence of those.
use kei_transaction.Common.Tests.{
  ℕ, Bool, true, false, not, ◌&&◌, Option, none, some, eqb, if◌then◌else◌,
}
use kei_transaction.Common.Eq.{◌==◌, text_eq}
use kei_transaction.Dict.{lookup, contains, mem}
use kei_transaction.Js.Text.{Text}
use kei_transaction.Core.Errors.{Code, Result, ok, fail_if, ◌>>=◌, ◌>>◌}
use kei_transaction.Core.Crypto.{Crypto, hash_block}
use kei_transaction.Core.Address.{public_key_from_address, assert_address, null_representative}
use kei_transaction.Core.Work.{work_root, meets_threshold}
use kei_transaction.Core.Blocks.{
  Block, BlockBody, AssetOp, issue, mint, burn, transfer, asset_receive, commit, commit_close,
  claim, swap_offer, swap_accept, swap_cancel, state, asset, AssetBlockBody, WorkTier, tier_a,
  tier_b, tier_c, tier_for, zero_hash, account_of, previous_of, representative_of, balance_of,
}
use kei_transaction.Ledger.State.{Ledger, LedgerAccount, LedgerTransition, Thresholds}
use kei_transaction.Ledger.Guards.{parse_raw}
use kei_transaction.Ledger.Commit.{commit_block}
use kei_transaction.Ledger.StateOps.{apply_state}
use kei_transaction.Ledger.IssueOps.{check_issue_burn, apply_issue}
use kei_transaction.Ledger.AssetOps.{
  apply_mint, apply_burn, apply_transfer, apply_asset_receive, apply_commit, apply_commit_close,
  apply_claim,
}
use kei_transaction.Ledger.SwapOps.{apply_swap_offer, apply_swap_accept, apply_swap_cancel}

abbrev pub balance_in : Option LedgerAccount → ℕ
balance_in none = 0
balance_in (some account) = account.balance

-- `this.accounts.get(address)?.balance ?? 0n`
unfoldable pub kei_balance : Ledger → Text → ℕ
kei_balance s account = balance_in (lookup account s.accounts)

abbrev pub threshold_of : Thresholds → WorkTier → ℕ
threshold_of t tier_a = t.a
threshold_of t tier_b = t.b
threshold_of t tier_c = t.c

module _ ⦃c : Crypto⦄ where
  -- The check before the `switch` of `applyAsset`: `KEI_MOVING_OPS` check their own delta.
  unfoldable pub check_kei : Ledger → Text → ℕ → ℕ → AssetOp → Result (Unit {0})
  check_kei s account previous new_balance (issue op) =
      check_issue_burn s account previous new_balance
  check_kei s account previous new_balance (swap_offer op) = ok tt
  check_kei s account previous new_balance (swap_accept op) = ok tt
  check_kei s account previous new_balance (swap_cancel op) = ok tt
  check_kei s account previous new_balance _ =
      fail_if (not (eqb new_balance previous)) Code.bad_asset_balance

  unfoldable pub apply_op : ℕ → Ledger → Text → Text → ℕ → ℕ → AssetOp → Result LedgerTransition
  apply_op now s account hash previous new_balance (issue op) =
      apply_issue s account previous new_balance op
  apply_op now s account hash previous new_balance (mint op) = apply_mint s account op hash
  apply_op now s account hash previous new_balance (burn op) = apply_burn s account op
  apply_op now s account hash previous new_balance (transfer op) = apply_transfer s account op hash
  apply_op now s account hash previous new_balance (asset_receive op) =
      apply_asset_receive s account op
  apply_op now s account hash previous new_balance (commit op) = apply_commit s account op
  apply_op now s account hash previous new_balance (commit_close op) =
      apply_commit_close s account op
  apply_op now s account hash previous new_balance (claim op) = apply_claim s account op
  apply_op now s account hash previous new_balance (swap_offer op) =
      apply_swap_offer now s account previous new_balance op hash
  apply_op now s account hash previous new_balance (swap_accept op) =
      apply_swap_accept now s account previous new_balance op hash
  apply_op now s account hash previous new_balance (swap_cancel op) =
      apply_swap_cancel now s account previous new_balance op hash

  unfoldable pub apply_asset : ℕ → Ledger → AssetBlockBody → Text → ℕ → ℕ → Result LedgerTransition
  unfolding check_kei apply_op
  apply_asset now s body hash previous new_balance = do
    check_kei s body.account previous new_balance body.op
    apply_op now s body.account hash previous new_balance body.op

  unfoldable pub apply_body : ℕ → Ledger → BlockBody → Text → ℕ → ℕ → Result LedgerTransition
  apply_body now s (state body) hash previous new_balance =
      apply_state s body previous new_balance hash
  apply_body now s (asset body) hash previous new_balance =
      apply_asset now s body hash previous new_balance

  abbrev pub bad_chain : Option LedgerAccount → Text → Result (Unit {0})
  bad_chain none previous = fail_if (not (previous == zero_hash)) Code.bad_previous
  bad_chain (some account) previous = fail_if (not (previous == account.frontier)) Code.fork

  unfoldable pub validate_envelope : Ledger → BlockBody → Text → Result (Unit {0})
  validate_envelope s body work = do
    _ ← assert_address (account_of body)
    _ ← assert_address (representative_of body)
    bad_chain (lookup (account_of body) s.accounts) (previous_of body)
    fail_if
        (mem (account_of body) s.reserve_accounts
          && not (representative_of body == null_representative))
        Code.reserve_representative
    root ← work_root body
    enough ← meets_threshold root work (threshold_of s.thresholds (tier_for body))
    fail_if (not enough) Code.bad_work

  -- Up to the call of `verifyHash`, with the hash; a block that the ledger has ends the call here.
  unfoldable pub admit : Block → Ledger → Result (Text × Bool)
  admit b s = do
    hash ← hash_block b.body
    if contains hash s.blocks
        then ok (hash, true)
        else do validate_envelope s b.body b.work; ok (hash, false)

  -- From the answer of `verifyHash` on. A parsed balance is never negative.
  unfoldable pub settle : ℕ → Block → Text → Ledger → Result Ledger
  settle now b hash s = do
    key ← public_key_from_address (account_of b.body)
    fail_if (not (c.verify_hash hash b.signature key)) Code.bad_signature
    new_balance ← parse_raw (balance_of b.body)
    transition ← apply_body now s b.body hash (kei_balance s (account_of b.body)) new_balance
    ok (commit_block b hash new_balance (transition s))

  -- One call with nothing in between.
  unfoldable pub process : ℕ → Block → Ledger → Result (Text × Ledger)
  unfolding admit
  process now b s = do
    (hash, known) ← admit b s
    if known then ok (hash, s) else do s' ← settle now b hash s; ok (hash, s')

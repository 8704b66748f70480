-- ===== src/Ledger/Reach/Claims.antt =====
-- Claims on the ledgers that packages/core/src/mock/ledger.ts reaches: an account claims from a root
-- once.
use kei_transaction.Common.Tests.{
  ℕ, ◌≡◌, ◌⊎◌, refl, sym, inl, inr, Option, none, some, true, false, arith,
}
use kei_transaction.Common.Eq.{text_eq, pair_eq}
use kei_transaction.Dict.{mem}
use kei_transaction.Js.Text.{Text, upper}
use kei_transaction.Core.Errors.{ok, >>=-eq-ok}
use kei_transaction.Core.Crypto.{Crypto, NoZeroDigest}
use kei_transaction.Core.Blocks.{
  Block, BlockBody, AssetOp, issue, mint, burn, transfer, asset_receive, commit, commit_close,
  claim, swap_offer, swap_accept, swap_cancel, state, asset, account_of,
}
use kei_transaction.Ledger.State.{Ledger, LedgerTransition}
use kei_transaction.Ledger.Commit.{commit_credit, set_circulating, commit_block}
use kei_transaction.Ledger.Process.{
  process, apply_op, apply_asset, apply_body, check_kei, kei_balance,
}
use kei_transaction.Ledger.AssetOps.Accepted.{claim-inv}
use kei_transaction.Ledger.Effect.{IsValid}
use kei_transaction.Ledger.Conservation.{process-inv, settle-inv, process-IsValid}
use kei_transaction.Ledger.Trace.Claims.{mem-add_self, Write-claimed}
use kei_transaction.Ledger.Reach.{Run, Run-Write, Run-IsValid}

-- Who claims from which root.
abbrev op_claims : Text → AssetOp → Option (Text × Text)
op_claims account (claim op) = some (account, upper op.root)
op_claims account _ = none

abbrev pub claims : BlockBody → Option (Text × Text)
claims (state body) = none
claims (asset body) = op_claims body.account body.op

module _ ⦃c : Crypto⦄ (s : Ledger) (now : ℕ) (hash : Text) (t : LedgerTransition) where
  op-claims :
      (account : Text) (previous new : ℕ) (op : AssetOp) (p : Text × Text)
      → op_claims account op ≡ some p
      → apply_op now s account hash previous new op ≡ ok t
      → (mem p s.claimed ≡ false) × (mem p (t s).claimed ≡ true)
  unfolding apply_op commit_credit set_circulating
  op-claims account previous new (claim op) p names e =
      let (a, n, _, _, _, free, is) = claim-inv s account t op e in
      let same : (account, upper op.root) ≡ p = ground arith in
      rw (is, sym same) (free, mem-add_self (account, upper op.root) s.claimed)
  op-claims account previous new (issue _) p names e = cc
  op-claims account previous new (mint _) p names e = cc
  op-claims account previous new (burn _) p names e = cc
  op-claims account previous new (transfer _) p names e = cc
  op-claims account previous new (asset_receive _) p names e = cc
  op-claims account previous new (commit _) p names e = cc
  op-claims account previous new (commit_close _) p names e = cc
  op-claims account previous new (swap_offer _) p names e = cc
  op-claims account previous new (swap_accept _) p names e = cc
  op-claims account previous new (swap_cancel _) p names e = cc

  body-claims :
      (previous new : ℕ) (body : BlockBody) (p : Text × Text)
      → claims body ≡ some p
      → apply_body now s body hash previous new ≡ ok t
      → (mem p s.claimed ≡ false) × (mem p (t s).claimed ≡ true)
  unfolding apply_body apply_asset
  body-claims previous new (state body) p names e = cc
  body-claims previous new (asset body) p names e =
      let (_, _, applied) =
        >>=-eq-ok (check_kei s body.account previous new body.op)
          (λ _. apply_op now s body.account hash previous new body.op) e in
      op-claims body.account previous new body.op p names applied

module _ ⦃c : Crypto⦄ (law : NoZeroDigest) where
  stored-claimed :
      (b : Block) (hash : Text) (new : ℕ) (t : Ledger)
      → (commit_block b hash new t).claimed ≡ t.claimed
  unfolding commit_block
  stored-claimed b hash new t = refl

  -- An accepted claim is the first of its account from its root, unless the ledger had the block.
  process-claims :
      {s t : Ledger} (v : IsValid s) (now : ℕ) (b : Block) (hash : Text) (p : Text × Text)
      → claims b.body ≡ some p
      → process now b s ≡ ok (hash, t)
      → (t ≡ s) ⊎ ((mem p s.claimed ≡ false) × (mem p t.claimed ≡ true))
  process-claims {s} {t} v now b hash p names e = elim (process-inv law v now b hash e).1 [
    | inl known ↦ inl known
    | inr (fresh, settled) ↦
        let (new, transition, _, applied, is) = settle-inv law v now b hash settled in
        let (was, done) =
          body-claims s now hash transition (kei_balance s (account_of b.body)) new b.body p names
            applied in
        inr (was, rw (is, stored-claimed b hash new (transition s)) done)
  ]

  -- An account claims from a root once. After a claim that has changed the valid ledger, and after
  -- any blocks that follow, no claim of the same account from the same root changes the ledger.
  pub claims_once :
      (s t u w : Ledger) (n1 n2 : ℕ) (b1 b2 : Block) (h1 h2 : Text) (p : Text × Text)
      → IsValid s
      → claims b1.body ≡ some p
      → claims b2.body ≡ some p
      → process n1 b1 s ≡ ok (h1, t)
      → (t ≡ s → ⊥)
      → Run t u
      → process n2 b2 u ≡ ok (h2, w)
      → w ≡ u
  claims_once s t u w n1 n2 b1 b2 h1 h2 p v names1 names2 e1 changed run e2 =
      let vt = process-IsValid law v n1 b1 h1 e1 in
      elim (process-claims v n1 b1 h1 p names1 e1) [
        | inl same ↦ elim (changed same) [ ]
        | inr (_, claimed) ↦
            let still = Write-claimed p (Run-Write law run vt) claimed in
            elim (process-claims (Run-IsValid law run vt) n2 b2 h2 p names2 e2) [
              | inl same ↦ same
              | inr (free, _) ↦ cc
            ]
      ]

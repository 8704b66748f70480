-- ===== src/Ledger/Reach/Swaps.antt =====
-- Swaps on the ledgers that packages/core/src/mock/ledger.ts reaches: an offer is settled once.
use kei_transaction.Common.Tests.{ℕ, ◌≡◌, ◌⊎◌, refl, sym, ap, ◌∙◌, inl, inr, Option, none, some}
use kei_transaction.Common.Eq.{text_eq}
use kei_transaction.Dict.{lookup}
use kei_transaction.Dict.Laws.{lookup-insert_self}
use kei_transaction.Js.Text.{Text, upper}
use kei_transaction.Core.Errors.{ok, or_fail-eq-ok, >>=-eq-ok}
use kei_transaction.Core.Crypto.{Crypto, NoZeroDigest}
use kei_transaction.Core.Blocks.{
  issue, mint, burn, transfer, asset_receive, commit, commit_close, claim, swap_offer, Block,
  BlockBody, AssetOp, swap_accept, swap_cancel, state, asset, account_of,
}
use kei_transaction.Ledger.State.{Ledger, LockRecord, LedgerTransition, pending}
use kei_transaction.Ledger.Guards.{require_lock, require_open_lock}
use kei_transaction.Ledger.Commit.{set_lock, commit_block}
use kei_transaction.Ledger.Process.{
  process, apply_op, apply_asset, apply_body, check_kei, kei_balance,
}
use kei_transaction.Ledger.SwapOps.{accepted_lock, cancelled_lock}
use kei_transaction.Ledger.SwapOps.Accepted.{accept-inv, cancel-inv, require_open_lock-pending}
use kei_transaction.Ledger.Effect.{IsValid}
use kei_transaction.Ledger.Conservation.{process-inv, settle-inv}
use kei_transaction.Dict.Each.{Each-lookup}
use kei_transaction.Ledger.Shape.{LockFits, HasBlock}
use kei_transaction.Ledger.Conservation.{process-IsValid}
use kei_transaction.Ledger.Reach.{Run-IsValid, Run, Run-Write}
use kei_transaction.Ledger.Trace.Locks.{Write-Continues}

-- The offer that a block settles, in upper case: the ledger reads an offer's hash in any case.
abbrev op_settles : AssetOp → Option Text
op_settles (swap_accept op) = some (upper op.offer)
op_settles (swap_cancel op) = some (upper op.offer)
op_settles _ = none

abbrev pub settles : BlockBody → Option Text
settles (state body) = none
settles (asset body) = op_settles body.op

-- The lock of the offer, before and after it is settled.
abbrev IsPending : Text → Ledger → Type 0
IsPending o s = (l : LockRecord) × (lookup o s.locks ≡ some l) × (l.state ≡ pending)

abbrev IsSettled : Text → Ledger → Type 0
IsSettled o s = (l : LockRecord) × (lookup o s.locks ≡ some l) × (l.state ≡ pending → ⊥)

module _ {s : Ledger} (v : IsValid s) where
  -- Settling the lock that the check has found.
  settle_found :
      (o : Text) (l new : LockRecord) (u : Ledger)
      → require_lock s o ≡ ok l
      → require_open_lock l ≡ ok tt
      → new.offer ≡ l.offer
      → (new.state ≡ pending → ⊥)
      → IsPending (upper o) s × IsSettled (upper o) (set_lock new u)
  unfolding require_lock set_lock
  settle_found o l new u there is_open named closed =
      let found = or_fail-eq-ok (lookup (upper o) s.locks) _ there in
      let fits = Each-lookup (LockFits (HasBlock s)) (upper o) l s.locks v.shape.lock_fits found in
      (
        (l, found, require_open_lock-pending l is_open),
        (new, rw (sym fits.0, sym named) (lookup-insert_self new.offer new u.locks), closed),
      )

module _ ⦃c : Crypto⦄ {s : Ledger} (v : IsValid s) (now : ℕ) (hash : Text)
    (t : LedgerTransition) where
  op-settles :
      (account : Text) (previous new : ℕ) (op : AssetOp) (o : Text)
      → op_settles op ≡ some o
      → apply_op now s account hash previous new op ≡ ok t
      → IsPending o s × IsSettled o (t s)
  unfolding apply_op
  op-settles account previous new (swap_accept op) o names e =
      let (l, _, _, there, _, _, _, is_open, _, _, _, _, _, is) =
        accept-inv now s account previous new hash t op e in
      let same : upper op.offer ≡ o = cc in
      rw (is, sym same)
        (settle_found v op.offer l (accepted_lock now account hash l) _ there is_open refl
          (λ p. cc))
  op-settles account previous new (swap_cancel op) o names e =
      let (l, _, there, _, _, is_open, is) = cancel-inv now s account previous new hash t op e in
      let same : upper op.offer ≡ o = cc in
      rw (is, sym same)
        (settle_found v op.offer l (cancelled_lock now hash l) _ there is_open refl (λ p. cc))
  op-settles account previous new (issue _) o names e = cc
  op-settles account previous new (mint _) o names e = cc
  op-settles account previous new (burn _) o names e = cc
  op-settles account previous new (transfer _) o names e = cc
  op-settles account previous new (asset_receive _) o names e = cc
  op-settles account previous new (commit _) o names e = cc
  op-settles account previous new (commit_close _) o names e = cc
  op-settles account previous new (claim _) o names e = cc
  op-settles account previous new (swap_offer _) o names e = cc

  body-settles :
      (previous new : ℕ) (body : BlockBody) (o : Text)
      → settles body ≡ some o
      → apply_body now s body hash previous new ≡ ok t
      → IsPending o s × IsSettled o (t s)
  unfolding apply_body apply_asset
  body-settles previous new (state body) o names e = cc
  body-settles previous new (asset body) o names e =
      let (_, _, applied) =
        >>=-eq-ok (check_kei s body.account previous new body.op)
          (λ _. apply_op now s body.account hash previous new body.op) e in
      op-settles body.account previous new body.op o names applied

module _ ⦃c : Crypto⦄ (law : NoZeroDigest) where
  stored-IsSettled :
      (o : Text) (b : Block) (hash : Text) (new : ℕ) (t : Ledger)
      → IsSettled o t
      → IsSettled o (commit_block b hash new t)
  unfolding commit_block
  stored-IsSettled o b hash new t h = h

  -- An accepted block that settles an offer finds it pending and leaves it settled, unless the
  -- ledger had the block.
  process-settles :
      {s t : Ledger} (v : IsValid s) (now : ℕ) (b : Block) (hash o : Text)
      → settles b.body ≡ some o
      → process now b s ≡ ok (hash, t)
      → (t ≡ s) ⊎ (IsPending o s × IsSettled o t)
  process-settles {s} {t} v now b hash o names e = elim (process-inv law v now b hash e).1 [
    | inl known ↦ inl known
    | inr (fresh, settled) ↦
        let (new, transition, _, applied, is) = settle-inv law v now b hash settled in
        let (was, done) =
          body-settles v now hash transition (kei_balance s (account_of b.body)) new b.body o names
            applied in
        inr (was, rw is (stored-IsSettled o b hash new (transition s) done))
  ]

  -- A run keeps a settled lock as it is.
  Run-IsSettled : {s t : Ledger} (o : Text) → IsValid s → Run s t → IsSettled o s → IsSettled o t
  Run-IsSettled o v run (l, found, closed) =
      let (m, at, (_, same)) = Write-Continues o l (Run-Write law run v) found in
      (m, at, λ p. closed (ap (λ x. x.state) (sym (same closed)) ∙ p))

  -- An offer settles once. After a block that accepts or cancels it has changed the valid ledger,
  -- and after any blocks that follow, one call after another, no block that accepts or cancels it, in
  -- whichever case it spells the offer's hash, changes the ledger again.
  pub settles_once :
      (s t u w : Ledger) (n1 n2 : ℕ) (b1 b2 : Block) (h1 h2 o : Text)
      → IsValid s
      → settles b1.body ≡ some o
      → settles b2.body ≡ some o
      → process n1 b1 s ≡ ok (h1, t)
      → (t ≡ s → ⊥)
      → Run t u
      → process n2 b2 u ≡ ok (h2, w)
      → w ≡ u
  settles_once s t u w n1 n2 b1 b2 h1 h2 o v names1 names2 e1 changed run e2 =
      let vt = process-IsValid law v n1 b1 h1 e1 in
      elim (process-settles v n1 b1 h1 o names1 e1) [
        | inl same ↦ elim (changed same) [ ]
        | inr (_, settled) ↦ elim (process-settles (Run-IsValid law run vt) n2 b2 h2 o names2 e2) [
          | inl same ↦ same
          | inr ((l, found, p), _) ↦
              let (m, at, closed) = Run-IsSettled o vt run settled in
              let eq : m ≡ l = cc in elim (closed (ap (λ x. x.state) eq ∙ p)) [ ]
        ]
      ]

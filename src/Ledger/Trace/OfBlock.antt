-- ===== src/Ledger/Trace/OfBlock.antt =====
-- Every block that packages/core/src/mock/ledger.ts accepts is a sequence of checked writes.
use kei_transaction.Common.Tests.{
  Option-cases, ℕ, ◌+◌, ◌-◌, ◌≡◌, refl, ap, ◌∙◌, inl, inr, Option, none, some, false, arith,
}
use kei_transaction.Common.Eq.{text_eq, list_beq_iff}
use kei_transaction.Dict.{lookup}
use kei_transaction.Js.Text.{Text, upper}
use kei_transaction.Core.Errors.{ok, >>=-eq-ok}
use kei_transaction.Core.Crypto.{Crypto, NoZeroDigest}
use kei_transaction.Ledger.State.{Ledger, AssetRecord, LedgerTransition, noop_transition}
use kei_transaction.Ledger.Guards.{require_debit, require_delta, require_headroom}
use kei_transaction.Ledger.StateOps.{apply_subtype, apply_state}
use kei_transaction.Ledger.AssetOps.Accepted.{
  mint-inv, burn-inv, transfer-inv, asset_receive-inv, claim-inv, commit-inv, commit_close-inv,
}
use kei_transaction.Ledger.SwapOps.{
  cancelled_lock, accepted_lock, offered_of, payment_of, debit_leg, credit_leg, pay_leg,
}
use kei_transaction.Ledger.SwapOps.Accepted.{
  offer-inv, accept-inv, cancel-inv, require_open_lock-pending,
}
use kei_transaction.Ledger.IssueOps.Accepted.{issue-inv}
use kei_transaction.Ledger.Effect.{IsValid}
use kei_transaction.Ledger.Effect.OfState.{send-inv, receive-inv, change-inv}
use kei_transaction.Ledger.Effect.Facts.{
  require_asset-found, require_lock-found, require_debit-le, fresh_lock,
}
use kei_transaction.Ledger.Trace.{
  IsNext, Write, keep, create, consume, debit, credit, circulate, issue, publish, close, claim,
  offer, finish, store, then_, KeepsCap,
}
use kei_transaction.Ledger.Commit.{create_receivable}
use kei_transaction.Core.Blocks
use kei_transaction.Core.Blocks.{
  Block, BlockBody, state, asset, kei_asset, account_of, previous_of, zero_hash,
}
use kei_transaction.Ledger.Guards.{require_delta, require_debit}
use kei_transaction.Ledger.IssueOps.{issued, record_issue, new_asset}
use kei_transaction.Ledger.AssetOps.{commit_record}
use kei_transaction.Ledger.Effect.Legs.{locks-debit_leg, locks-credit_leg}
use kei_transaction.Ledger.Supply.Frames.{assets-debit}
use kei_transaction.Ledger.Process.{
  bad_chain, apply_op, apply_asset, apply_body, check_kei, validate_envelope, admit, process,
  kei_balance,
}
use kei_transaction.Ledger.Effect.OfBlock.{body-effect}
use kei_transaction.Ledger.Conservation.{settle-inv, process-inv, hash_block-IsUpper}

require_headroom-KeepsCap :
    (a : AssetRecord) (n : ℕ) → require_headroom a n ≡ ok tt → KeepsCap a (a.circulating + n)
unfolding require_headroom
require_headroom-KeepsCap a n e cap capped below = ground arith

module _ ⦃c : Crypto⦄ {s : Ledger} where
  debit_leg-Write :
      (leg : Option AssetRecord) (account : Text) (previous new n : ℕ)
      → pay_leg s account previous new leg n ≡ ok tt
      → Write s (debit_leg leg account n s)
  unfolding debit_leg pay_leg
  debit_leg-Write none account previous new n e = keep
  debit_leg-Write (some a) account previous new n e =
      let (_, _, enough) =
        >>=-eq-ok (require_delta previous new 0 0) (λ _. require_debit s account a n) e in
      debit account a.id n (require_debit-le s account a n enough)

  credit_leg-Write :
      (leg : Option AssetRecord) (account : Text) (n : ℕ) → Write s (credit_leg leg account n s)
  unfolding credit_leg
  credit_leg-Write none account n = keep
  credit_leg-Write (some a) account n = credit account a.id n

module _ ⦃c : Crypto⦄ {s : Ledger} (v : IsValid s) (now : ℕ) (hash : Text)
    (fresh : lookup hash s.blocks ≡ none) (t : LedgerTransition) (previous new : ℕ) where
  subtype-Write :
      (body : Blocks.StateBlockBody) (kind : Blocks.StateSubtype)
      → apply_subtype s body previous new kind hash ≡ ok t
      → Write s (t s)
  unfolding apply_subtype
  subtype-Write body Blocks.send e =
      let (to, _, is, _) = send-inv s body previous new hash t e in rw is (create hash _)
  subtype-Write body Blocks.open_chain e =
      let (r, _, _, _, is) = receive-inv s body previous new t e in rw is (consume r)
  subtype-Write body Blocks.receive e =
      let (r, _, _, _, is) = receive-inv s body previous new t e in rw is (consume r)
  subtype-Write body Blocks.change e =
      let (_, is) = change-inv s body previous new t e in rw is keep
  subtype-Write body (Blocks.other_subtype kind) e =
      let is : t ≡ noop_transition = ground arith in rw is keep

  op-Write :
      (account : Text) (op : Blocks.AssetOp)
      → apply_op now s account hash previous new op ≡ ok t
      → Write s (t s)
  unfolding apply_op record_issue create_receivable
  op-Write account (Blocks.issue op) e =
      let (symbol, key, id, transfer, swap, cap, _, _, _, _, _, _, free, is) =
        issue-inv s account previous new op t e in
      rw is (
        issue (new_asset account op symbol id transfer swap cap) account (issued s account + 1) free
          refl)
  op-Write account (Blocks.mint op) e =
      let (a, n, to, _, checked, _, room, _, is) = mint-inv s account t op hash e in
      let found = (require_asset-found v.shape op.asset a checked).0 in
      rw is (
        then_ (circulate a (a.circulating + n) found (require_headroom-KeepsCap a n room))
          (create hash _))
  op-Write account (Blocks.burn op) e =
      let (a, n, checked, _, enough, is) = burn-inv s account t op e in
      let found = (require_asset-found v.shape op.asset a checked).0 in
      rw is (
        then_ (debit account a.id n (require_debit-le s account a n enough)) (
          circulate a (a.circulating - n)
            (ap (λ d. lookup a.id d) (assets-debit account a.id n s) ∙ found)
            (λ cap _ below. omega arith)))
  op-Write account (Blocks.transfer op) e =
      let (a, n, to, _, _, _, enough, is) = transfer-inv s account t op hash e in
      rw is (then_ (debit account a.id n (require_debit-le s account a n enough)) (create hash _))
  op-Write account (Blocks.asset_receive op) e =
      let (r, a, _, _, is) = asset_receive-inv s account t op e in
      rw is (then_ (consume r) (credit account a.id r.amount))
  op-Write account (Blocks.commit op) e =
      let (a, total, _, _, _, free, is) = commit-inv s account t op e in
      rw is (publish (commit_record account op a total) free)
  op-Write account (Blocks.commit_close op) e =
      let (p, found, _, how) = commit_close-inv s account t op e in
      elim how [ inl is ↦ rw is keep | inr is ↦ rw is (close (upper op.root) p found) ]
  op-Write account (Blocks.claim op) e =
      let (a, n, checked, _, room, _, is) = claim-inv s account t op e in
      let found = (require_asset-found v.shape op.asset a checked).0 in
      rw is (
        then_
          (then_ (claim account (upper op.root))
            (circulate a (a.circulating + n) found (require_headroom-KeepsCap a n room)))
          (credit account a.id n))
  op-Write account (Blocks.swap_offer op) e =
      let (offered, wanted, amount, want, other, _, _, _, _, _, paid, is) =
        offer-inv now s account previous new hash t op e in
      let free = locks-debit_leg s account amount offered in
      rw is (
        then_ (debit_leg-Write offered account previous new amount paid)
          (offer hash account _ (ap (λ d. lookup hash d) free ∙ fresh_lock v.shape hash fresh)))
  op-Write account (Blocks.swap_accept op) e =
      let (l, offered, wanted, there, _, _, _, is_open, paid, _, _, _, _, is) =
        accept-inv now s account previous new hash t op e in
      rw is (
        then_
          (then_
            (then_ (debit_leg-Write wanted account previous new l.want_amount paid)
              (create hash (payment_of hash account l)))
            (create l.offer (offered_of account l)))
          (finish l (accepted_lock now account hash l)
            (ap (λ d. lookup l.offer d) (locks-debit_leg s account l.want_amount wanted)
              ∙ (require_lock-found v.shape op.offer l there).0)
            (require_open_lock-pending l is_open) (λ e. cc) refl))
  op-Write account (Blocks.swap_cancel op) e =
      let (l, refund, there, _, _, is_open, is) =
        cancel-inv now s account previous new hash t op e in
      rw is (
        then_ (credit_leg-Write refund account l.amount) (
          finish l (cancelled_lock now hash l)
            (ap (λ d. lookup l.offer d) (locks-credit_leg s account l.amount refund)
              ∙ (require_lock-found v.shape op.offer l there).0)
            (require_open_lock-pending l is_open) (λ e. cc) refl))

  body-Write : (body : BlockBody) → apply_body now s body hash previous new ≡ ok t → Write s (t s)
  unfolding apply_body apply_state apply_asset
  body-Write (state body) e = subtype-Write body body.subtype e
  body-Write (asset body) e =
      let (_, _, applied) =
        >>=-eq-ok (check_kei s body.account previous new body.op)
          (λ _. apply_op now s body.account hash previous new body.op) e in
      op-Write body.account body.op applied

module _ ⦃c : Crypto⦄ (s : Ledger) (b : Block) where
  envelope-chain :
      (work : Text)
      → validate_envelope s b.body work ≡ ok tt
      → bad_chain (lookup (account_of b.body) s.accounts) (previous_of b.body) ≡ ok tt
  unfolding validate_envelope
  envelope-chain work e = ground arith

  admitted-IsNext : (work : Text) → validate_envelope s b.body work ≡ ok tt → IsNext s b
  admitted-IsNext work e =
      let previous = previous_of b.body in
      let chained = envelope-chain work e in
      elim (Option-cases (lookup (account_of b.body) s.accounts)) [
        | inl none_yet ↦ inl (none_yet, ground (arith, list_beq_iff previous zero_hash))
        | inr (r, found) ↦ inr (r, found, ground (arith, list_beq_iff previous r.frontier))
      ]

  admit-checked :
      (hash : Text) → admit b s ≡ ok (hash, false) → validate_envelope s b.body b.work ≡ ok tt
  unfolding admit
  admit-checked hash e = ground arith

  process-admit :
      (now : ℕ) (hash : Text) (t : Ledger)
      → lookup hash s.blocks ≡ none
      → process now b s ≡ ok (hash, t)
      → admit b s ≡ ok (hash, false)
  unfolding process
  process-admit now hash t fresh e = ground arith

  pub process-IsNext :
      (now : ℕ) (hash : Text) (t : Ledger)
      → lookup hash s.blocks ≡ none
      → process now b s ≡ ok (hash, t)
      → IsNext s b
  process-IsNext now hash t fresh e =
      admitted-IsNext b.work (admit-checked hash (process-admit now hash t fresh e))

-- What an accepted block writes: nothing, if the ledger has it, or its transition and itself.
pub process-Write :
    ⦃c : Crypto⦄ (law : NoZeroDigest) {s t : Ledger} (v : IsValid s) (now : ℕ) (b : Block)
    (hash : Text)
    → process now b s ≡ ok (hash, t)
    → Write s t
process-Write law {s = s} {t = t} v now b hash e =
    let (hashed, how) = process-inv law v now b hash e in
    elim how [
      | inl known ↦ rw known keep
      | inr (fresh, settled) ↦
          let (new, transition, _, applied, is) = settle-inv law v now b hash settled in
          let previous = kei_balance s (account_of b.body) in
          let chains =
            (body-effect law v now hash fresh (hash_block-IsUpper b.body hash hashed) transition
              previous new b.body applied).chains in
          let next = process-IsNext s b now hash t fresh e in
          rw is (
            then_ (body-Write v now hash fresh transition previous new b.body applied) (
              store b hash new hashed (ap (λ d. lookup hash d) chains.blocks ∙ fresh)
                (rw chains.accounts next)))
    ]

-- ===== src/Ledger/Effect/OfBlock.antt =====
-- What the transition of any block of packages/core/src/mock/ledger.ts does, by its operation.
use kei_transaction.Common.Tests.{ℕ, ◌≡◌, refl, none, true, false, arith, not, eqb}
use kei_transaction.Common.Eq.{text_eq}
use kei_transaction.Dict.{lookup}
use kei_transaction.Js.Text.{Text, upper}
use kei_transaction.Core.Errors.{Code, ok, fail_if, >>=-eq-ok}
use kei_transaction.Core.Crypto.{Crypto, NoZeroDigest}
use kei_transaction.Core.Blocks.{
  BlockBody, StateSubtype, StateBlockBody, AssetOp, issue, mint, burn, transfer, asset_receive,
  commit, commit_close, claim, swap_offer, swap_accept, swap_cancel, state, asset, open_chain, send,
  receive, change, other_subtype, is_declared, has_declared_subtype,
}
use kei_transaction.Ledger.State.{Ledger, LedgerTransition, noop_transition}
use kei_transaction.Ledger.StateOps.{apply_state, apply_subtype}
use kei_transaction.Ledger.Process.{check_kei, apply_op, apply_asset, apply_body}
use kei_transaction.Ledger.Effect.{IsValid, Outcome}
use kei_transaction.Ledger.Effect.OfState.{send-effect, receive-effect, change-effect, noop_effect}
use kei_transaction.Ledger.Effect.OfIssue.{issue-effect}
use kei_transaction.Ledger.Effect.OfAsset.{
  mint-effect, burn-effect, transfer-effect, asset_receive-effect, claim-effect, commit-effect,
  commit_close-effect,
}
use kei_transaction.Ledger.Effect.OfSwap.{offer-effect, accept-effect, cancel-effect}

-- The balance that a block's transition accounts for: the one that it states, or the one that the
-- account had where the subtype is none of the declared ones.
abbrev accounted_subtype : StateSubtype → ℕ → ℕ → ℕ
accounted_subtype open_chain previous new = new
accounted_subtype send previous new = new
accounted_subtype receive previous new = new
accounted_subtype change previous new = new
accounted_subtype (other_subtype kind) previous new = previous

abbrev pub accounted : BlockBody → ℕ → ℕ → ℕ
accounted (state body) previous new = accounted_subtype body.subtype previous new
accounted (asset body) previous new = new

accounted-declared_subtype :
    (kind : StateSubtype) (previous new : ℕ)
    → is_declared kind ≡ true
    → accounted_subtype kind previous new ≡ new
accounted-declared_subtype open_chain previous new h = refl
accounted-declared_subtype send previous new h = refl
accounted-declared_subtype receive previous new h = refl
accounted-declared_subtype change previous new h = refl
accounted-declared_subtype (other_subtype kind) previous new h = cc

pub accounted-declared :
    (body : BlockBody) (previous new : ℕ)
    → has_declared_subtype body ≡ true
    → accounted body previous new ≡ new
accounted-declared (state body) previous new h =
    accounted-declared_subtype body.subtype previous new h
accounted-declared (asset body) previous new h = refl

accounted-other_subtype :
    (kind : StateSubtype) (previous new : ℕ)
    → is_declared kind ≡ false
    → accounted_subtype kind previous new ≡ previous
accounted-other_subtype open_chain previous new h = cc
accounted-other_subtype send previous new h = cc
accounted-other_subtype receive previous new h = cc
accounted-other_subtype change previous new h = cc
accounted-other_subtype (other_subtype kind) previous new h = refl

pub accounted-other :
    (body : BlockBody) (previous new : ℕ)
    → has_declared_subtype body ≡ false
    → accounted body previous new ≡ previous
accounted-other (state body) previous new h = accounted-other_subtype body.subtype previous new h
accounted-other (asset body) previous new h = cc

module _ ⦃c : Crypto⦄ (law : NoZeroDigest) {s : Ledger} (v : IsValid s) (now : ℕ) (hash : Text)
    (fresh : lookup hash s.blocks ≡ none) (cased : upper hash ≡ hash) (t : LedgerTransition)
    (previous new : ℕ) where
  subtype-effect :
      (body : StateBlockBody) (kind : StateSubtype)
      → apply_subtype s body previous new kind hash ≡ ok t
      → Outcome s hash previous (accounted_subtype kind previous new) (t s)
  unfolding apply_subtype
  subtype-effect body send e = send-effect v hash fresh body previous new t cased e
  subtype-effect body open_chain e = receive-effect v hash fresh body previous new t e
  subtype-effect body receive e = receive-effect v hash fresh body previous new t e
  subtype-effect body change e = change-effect v hash fresh body previous new t e
  subtype-effect body (other_subtype kind) e =
      let is : t ≡ noop_transition = ground arith in rw is (noop_effect v hash fresh previous)

  -- An operation that moves no Kei leaves the balance as it was.
  same_balance :
      Outcome s hash previous previous (t s)
      → fail_if (not (eqb new previous)) Code.bad_asset_balance ≡ ok tt
      → Outcome s hash previous new (t s)
  same_balance done e = let same : new ≡ previous = ground arith in rw same done

  op-effect :
      (account : Text) (op : AssetOp)
      → check_kei s account previous new op ≡ ok tt
      → apply_op now s account hash previous new op ≡ ok t
      → Outcome s hash previous new (t s)
  unfolding check_kei apply_op
  op-effect account (issue op) paid e = issue-effect v account previous new op hash t law paid e
  op-effect account (swap_offer op) paid e =
      offer-effect v now account hash previous new fresh cased t op e
  op-effect account (swap_accept op) paid e =
      accept-effect v now account hash previous new fresh cased t op e
  op-effect account (swap_cancel op) paid e =
      cancel-effect v now account hash previous new fresh cased t op e
  op-effect account (mint op) paid e =
      same_balance (mint-effect v account hash previous t op fresh cased e) paid
  op-effect account (burn op) paid e =
      same_balance (burn-effect v account hash previous t op e) paid
  op-effect account (transfer op) paid e =
      same_balance (transfer-effect v account hash previous t op fresh cased e) paid
  op-effect account (asset_receive op) paid e =
      same_balance (asset_receive-effect v account hash previous t op e) paid
  op-effect account (commit op) paid e =
      same_balance (commit-effect v account hash previous t op e) paid
  op-effect account (commit_close op) paid e =
      same_balance (commit_close-effect v account hash previous t op e) paid
  op-effect account (claim op) paid e =
      same_balance (claim-effect v account hash previous t op e) paid

  pub body-effect :
      (body : BlockBody)
      → apply_body now s body hash previous new ≡ ok t
      → Outcome s hash previous (accounted body previous new) (t s)
  unfolding apply_body apply_state apply_asset
  body-effect (state body) e = subtype-effect body body.subtype e
  body-effect (asset body) e =
      let (_, paid, applied) =
        >>=-eq-ok (check_kei s body.account previous new body.op)
          (λ _. apply_op now s body.account hash previous new body.op) e in
      op-effect body.account body.op paid applied

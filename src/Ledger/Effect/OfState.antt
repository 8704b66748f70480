-- ===== src/Ledger/Effect/OfState.antt =====
-- The effect of a state block (`applyState` of packages/core/src/mock/ledger.ts).
use kei_transaction.Common.Tests.{
  ◌∙◌, sym, ℕ, ◌+◌, ◌-◌, ◌≤◌, ◌≡◌, refl, inl, true, none, some, arith,
}
use kei_transaction.Common.Eq.{list_beq_iff, ◌==◌, text_eq}
use kei_transaction.Dict.{lookup}
use kei_transaction.Js.Text.{Text, upper}
use kei_transaction.Core.Errors.{ok}
use kei_transaction.Core.Crypto.{Crypto}
use kei_transaction.Core.Address.{address_from_public_key}
use kei_transaction.Core.Blocks.{StateBlockBody, kei_asset}
use kei_transaction.Ledger.State.{Ledger, LedgerTransition, StoredReceivable, noop_transition}
use kei_transaction.Ledger.Guards.{require_receivable, require_receivable_any_asset}
use kei_transaction.Ledger.Commit.{create_receivable, consume_receivable}
use kei_transaction.Ledger.StateOps.{apply_send, apply_receive, apply_change}
use kei_transaction.Ledger.Supply.{count_if_eq, count_if_ne}
use kei_transaction.Ledger.Supply.Frames.{
  KeepsChains-create, KeepsChains-consume, totals-create, totals-consume,
}
use kei_transaction.Ledger.Shape.Writes.{create-HasShape, consume-HasShape}
use kei_transaction.Ledger.Effect.{IsValid, Outcome}
use kei_transaction.Ledger.Effect.Facts.{
  kei-IsUpper, widen, fresh_receivable, fresh_lock, require_receivable-found,
}

module _ ⦃c : Crypto⦄ (s : Ledger) (body : StateBlockBody) (previous new : ℕ) where
  abbrev pub sent : Text → Text → StoredReceivable
  sent hash to = record {
    hash = hash;
    from = body.account;
    to = to;
    asset = kei_asset;
    amount = previous - new;
    memo = none;
  }

  pub send-inv :
      (hash : Text) (t : LedgerTransition)
      → apply_send s body previous new hash ≡ ok t
      → (to : Text) × (address_from_public_key body.link ≡ ok to)
        × (t ≡ create_receivable hash (sent hash to))
        × (new ≤ previous)
  unfolding apply_send
  send-inv hash t e = ground arith

  pub receive-inv :
      (t : LedgerTransition)
      → apply_receive s body previous new ≡ ok t
      → (r : StoredReceivable) × (require_receivable_any_asset s body.link body.account ≡ ok r)
        × ((r.asset == kei_asset) ≡ true)
        × (new ≡ previous + r.amount)
        × (t ≡ consume_receivable r)
  unfolding apply_receive require_receivable
  receive-inv t e = ground arith

  pub change-inv :
      (t : LedgerTransition)
      → apply_change s body previous new ≡ ok t
      → (new ≡ previous) × (t ≡ noop_transition)
  unfolding apply_change
  change-inv t e = ground arith

-- A new Kei receivable takes its amount from the balance.
module _ {s : Ledger} (v : IsValid s) (hash : Text) (fresh : lookup hash s.blocks ≡ none) where
  create_effect :
      (r : StoredReceivable) (previous new : ℕ)
      → upper hash ≡ hash
      → r.hash ≡ hash
      → r.asset ≡ kei_asset
      → r.amount + new ≡ previous
      → Outcome s hash previous new (create_receivable hash r s)
  create_effect r previous new cased named kei moved =
      let free = fresh_receivable v.shape hash fresh in
      record {
        shape =
            create-HasShape (widen v.shape hash) hash r named cased (inl refl) (rw kei kei-IsUpper)
              (λ l e p. cc (fresh_lock v.shape hash fresh));
        balanced = λ x not_kei. omega (
          arith,
          v.balanced x not_kei,
          totals-create hash r s x free,
          count_if_ne r.asset x r.amount (λ same. not_kei (sym same ∙ kei)),
        );
        kei = omega (
          arith,
          totals-create hash r s kei_asset free,
          count_if_eq r.asset kei_asset r.amount kei,
        );
        chains = KeepsChains-create hash r s;
      }

  -- A Kei receivable that is consumed joins the balance.
  consume_effect :
      (r : StoredReceivable) (previous : ℕ)
      → lookup (upper r.hash) s.receivables ≡ some r
      → r.asset ≡ kei_asset
      → Outcome s hash previous (previous + r.amount) (consume_receivable r s)
  consume_effect r previous found kei = record {
    shape = consume-HasShape (widen v.shape hash) r;
    balanced = λ x not_kei. omega (
      arith,
      v.balanced x not_kei,
      totals-consume r s x found,
      count_if_ne r.asset x r.amount (λ same. not_kei (sym same ∙ kei)),
    );
    kei =
        omega
          (arith, totals-consume r s kei_asset found, count_if_eq r.asset kei_asset r.amount kei);
    chains = KeepsChains-consume hash r s;
  }

  pub noop_effect : (n : ℕ) → Outcome s hash n n s
  noop_effect n = record {
    shape = widen v.shape hash;
    balanced = v.balanced;
    kei = refl;
    chains = record { accounts = refl; blocks = refl; chains = refl };
  }

  module _ ⦃c : Crypto⦄ (body : StateBlockBody) (previous new : ℕ) (t : LedgerTransition) where
    pub send-effect :
        upper hash ≡ hash
        → apply_send s body previous new hash ≡ ok t
        → Outcome s hash previous new (t s)
    send-effect cased e =
        let (to, _, is, le) = send-inv s body previous new hash t e in
        rw is (
          create_effect (sent s body previous new hash to) previous new cased refl refl
            (omega arith))

    pub receive-effect :
        apply_receive s body previous new ≡ ok t → Outcome s hash previous new (t s)
    receive-effect e =
        let (r, checked, kei, moved, is) = receive-inv s body previous new t e in
        rw (is, moved)
          (consume_effect r previous
            (require_receivable-found v.shape body.link body.account r checked).0
            ((list_beq_iff r.asset kei_asset).0 kei))

    pub change-effect : apply_change s body previous new ≡ ok t → Outcome s hash previous new (t s)
    change-effect e =
        let (same, is) = change-inv s body previous new t e in rw (is, same) (noop_effect previous)

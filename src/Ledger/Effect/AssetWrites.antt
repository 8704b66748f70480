-- ===== src/Ledger/Effect/AssetWrites.antt =====
-- The effect of the writes by which the asset operations of packages/core/src/mock/ledger.ts create,
-- destroy and move units.
use kei_transaction.Common.Tests.{ℕ, ◌+◌, ◌-◌, ◌≤◌, ◌≡◌, refl, inl, none, some, arith}
use kei_transaction.Common.Eq.{text_eq, pair_eq, list_beq_iff}
use kei_transaction.Dict.{lookup}
use kei_transaction.Js.Text.{Text, upper}
use kei_transaction.Core.Blocks.{kei_asset}
use kei_transaction.Ledger.State.{Ledger, AssetRecord, StoredReceivable}
use kei_transaction.Ledger.Guards.{held}
use kei_transaction.Ledger.Commit.{
  commit_credit, commit_debit, create_receivable, consume_receivable, set_circulating,
}
use kei_transaction.Ledger.Supply.Frames
use kei_transaction.Ledger.Shape.{IsUpper}
use kei_transaction.Ledger.Shape.Writes.{
  credit-HasShape, debit-HasShape, create-HasShape, consume-HasShape, set_circulating-HasShape,
}
use kei_transaction.Ledger.Effect.{IsValid, Outcome}
use kei_transaction.Ledger.Effect.Facts.{widen, fresh_receivable, fresh_lock, circulating_at}

module _ {s : Ledger} (v : IsValid s) (hash : Text) (balance : ℕ) where
  module _ (a : AssetRecord) (n : ℕ) (found : lookup a.id s.assets ≡ some a)
      (not_kei : a.id ≡ kei_asset → ⊥) (id : IsUpper a.id) where
    pub mint_effect :
        (r : StoredReceivable)
        → lookup hash s.blocks ≡ none
        → upper hash ≡ hash
        → r.hash ≡ hash
        → r.asset ≡ a.id
        → r.amount ≡ n
        → Outcome s hash balance balance
            (create_receivable hash r (set_circulating a (a.circulating + n) s))
    mint_effect r fresh cased named asset amount =
        let t = set_circulating a (a.circulating + n) s in
        let free : lookup hash t.receivables ≡ none =
          unfold set_circulating in fresh_receivable v.shape hash fresh in
        let free_lock : lookup hash t.locks ≡ none =
          unfold set_circulating in fresh_lock v.shape hash fresh in
        record {
          shape =
              create-HasShape
                (set_circulating-HasShape (widen v.shape hash) a (a.circulating + n) not_kei id)
                hash r named cased (inl refl) (rw asset id) (λ l e p. cc (free_lock, e));
          balanced = λ x x_not_kei. ground (
            arith,
            v.balanced x x_not_kei,
            Frames.totals-create hash r t x free,
            Frames.totals-set a (a.circulating + n) s x,
            circulating_at x a s found,
          );
          kei = ground (
            arith,
            Frames.totals-create hash r t kei_asset free,
            Frames.totals-set a (a.circulating + n) s kei_asset,
            list_beq_iff a.id kei_asset,
          );
          chains =
              Frames.KeepsChains-trans (Frames.KeepsChains-set a (a.circulating + n) s)
                (Frames.KeepsChains-create hash r t);
        }

    pub burn_effect :
        (account : Text)
        → n ≤ held s account a.id
        → Outcome s hash balance balance
            (set_circulating a (a.circulating - n) (commit_debit account a.id n s))
    burn_effect account enough =
        let t = commit_debit account a.id n s in
        record {
          shape =
              set_circulating-HasShape (debit-HasShape (widen v.shape hash) account a.id n) a
                (a.circulating - n) not_kei id;
          balanced = λ x x_not_kei. ground (
            arith,
            v.balanced x x_not_kei,
            Frames.totals-debit account a.id n s x enough,
            Frames.totals-set a (a.circulating - n) t x,
            circulating_at x a s found,
          );
          kei = ground (
            arith,
            Frames.totals-debit account a.id n s kei_asset enough,
            Frames.totals-set a (a.circulating - n) t kei_asset,
            list_beq_iff a.id kei_asset,
          );
          chains =
              Frames.KeepsChains-trans (Frames.KeepsChains-debit account a.id n s)
                (Frames.KeepsChains-set a (a.circulating - n) t);
        }

    pub transfer_effect :
        (account : Text) (r : StoredReceivable)
        → lookup hash s.blocks ≡ none
        → upper hash ≡ hash
        → n ≤ held s account a.id
        → r.hash ≡ hash
        → r.asset ≡ a.id
        → r.amount ≡ n
        → Outcome s hash balance balance (create_receivable hash r (commit_debit account a.id n s))
    transfer_effect account r fresh cased enough named asset amount =
        let t = commit_debit account a.id n s in
        let free : lookup hash t.receivables ≡ none =
          rw Frames.receivables-debit (fresh_receivable v.shape hash fresh) in
        let free_lock : lookup hash t.locks ≡ none =
          rw Frames.locks-debit (fresh_lock v.shape hash fresh) in
        record {
          shape =
              create-HasShape (debit-HasShape (widen v.shape hash) account a.id n) hash r named
                cased (inl refl) (rw asset id) (λ l e p. cc (free_lock, e));
          balanced = λ x x_not_kei. ground (
            arith,
            v.balanced x x_not_kei,
            Frames.totals-debit account a.id n s x enough,
            Frames.totals-create hash r t x free,
          );
          kei = ground (
            arith,
            Frames.totals-debit account a.id n s kei_asset enough,
            Frames.totals-create hash r t kei_asset free,
            list_beq_iff a.id kei_asset,
          );
          chains =
              Frames.KeepsChains-trans (Frames.KeepsChains-debit account a.id n s)
                (Frames.KeepsChains-create hash r t);
        }

    pub receive_effect :
        (account : Text) (r : StoredReceivable)
        → lookup (upper r.hash) s.receivables ≡ some r
        → r.asset ≡ a.id
        → r.amount ≡ n
        → Outcome s hash balance balance (commit_credit account a.id n (consume_receivable r s))
    receive_effect account r there asset amount =
        let t = consume_receivable r s in
        record {
          shape = credit-HasShape (consume-HasShape (widen v.shape hash) r) account a.id n;
          balanced = λ x x_not_kei. ground (
            arith,
            v.balanced x x_not_kei,
            Frames.totals-credit account a.id n t x,
            Frames.totals-consume r s x there,
          );
          kei = ground (
            arith,
            Frames.totals-credit account a.id n t kei_asset,
            Frames.totals-consume r s kei_asset there,
            list_beq_iff a.id kei_asset,
          );
          chains =
              Frames.KeepsChains-trans (Frames.KeepsChains-consume hash r s)
                (Frames.KeepsChains-credit account a.id n t);
        }

    pub claim_effect :
        (account : Text)
        → Outcome s hash balance balance
            (commit_credit account a.id n (set_circulating a (a.circulating + n) s))
    claim_effect account =
        let t = set_circulating a (a.circulating + n) s in
        record {
          shape =
              credit-HasShape
                (set_circulating-HasShape (widen v.shape hash) a (a.circulating + n) not_kei id)
                account a.id n;
          balanced = λ x x_not_kei. ground (
            arith,
            v.balanced x x_not_kei,
            Frames.totals-credit account a.id n t x,
            Frames.totals-set a (a.circulating + n) s x,
            circulating_at x a s found,
          );
          kei = ground (
            arith,
            Frames.totals-credit account a.id n t kei_asset,
            Frames.totals-set a (a.circulating + n) s kei_asset,
            list_beq_iff a.id kei_asset,
          );
          chains =
              Frames.KeepsChains-trans (Frames.KeepsChains-set a (a.circulating + n) s)
                (Frames.KeepsChains-credit account a.id n t);
        }

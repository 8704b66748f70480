-- ===== src/Ledger/Effect/Facts.antt =====
-- What the checks of packages/core/src/mock/ledger.ts establish about a ledger in shape.
use kei_transaction.Common.Tests.{
  ℕ, ◌≤◌, ◌≡◌, refl, sym, ap, ◌∙◌, inl, inr, true, none, some, arith, Option-cases,
}
use mathlib.Core.Path.{subst}
use kei_transaction.Common.Eq.{◌==◌, text_eq, list_beq_iff}
use kei_transaction.Dict.{lookup}
use kei_transaction.Dict.Each.{Each-lookup}
use kei_transaction.Js.Text.{Text, upper}
use kei_transaction.Core.Errors.{ok, or_fail-eq-ok}
use kei_transaction.Core.Blocks.{zero_hash, kei_asset}
use kei_transaction.Ledger.State.{Ledger, AssetRecord, StoredReceivable, LockRecord}
use kei_transaction.Ledger.Guards.{
  held, require_asset, require_debit, require_receivable_any_asset, require_lock,
}
use kei_transaction.Ledger.Supply.{circulating_of}
use kei_transaction.Ledger.Shape.{IsUpper, HasShape, HasBlock, AssetFits, ReceivableFits, LockFits}
use kei_transaction.Ledger.Shape.Writes.{HasShape-mono}
use kei_transaction.Ledger.Effect.{KnownWith}

module _ {s : Ledger} (h : HasShape (HasBlock s) s) (hash : Text) where
  pub widen : HasShape (KnownWith s hash) s
  widen = HasShape-mono h (λ k known. inr known)

  pub fresh_receivable : lookup hash s.blocks ≡ none → lookup hash s.receivables ≡ none
  fresh_receivable fresh = elim (Option-cases (lookup hash s.receivables)) [
    | inl free ↦ free
    | inr (r, e) ↦
        let known =
          (Each-lookup (ReceivableFits (HasBlock s)) hash r s.receivables h.receivable_fits e).2 in
        ground arith
  ]

  pub fresh_lock : lookup hash s.blocks ≡ none → lookup hash s.locks ≡ none
  fresh_lock fresh = elim (Option-cases (lookup hash s.locks)) [
    | inl free ↦ free
    | inr (l, e) ↦
        let known = (Each-lookup (LockFits (HasBlock s)) hash l s.locks h.lock_fits e).2 in
        ground arith
  ]

module _ {Known : Text → Type 0} {s : Ledger} (h : HasShape Known s) where
  -- An asset that a check found is the ledger's own record of it, and is not Kei.
  pub require_asset-found :
      (k : Text) (a : AssetRecord)
      → require_asset s k ≡ ok a
      → (lookup a.id s.assets ≡ some a) × (a.id ≡ kei_asset → ⊥) × (upper k ≡ a.id) × IsUpper a.id
  unfolding require_asset
  require_asset-found k a e =
      let found = or_fail-eq-ok (lookup (upper k) s.assets) _ e in
      let fits = Each-lookup AssetFits (upper k) a s.assets h.asset_fits found in
      (
        ap (λ i. lookup i s.assets) fits.0 ∙ found,
        λ same. fits.1 (sym fits.0 ∙ same),
        sym fits.0,
        ap upper fits.0 ∙ fits.2 ∙ sym fits.0,
      )

  pub require_receivable-found :
      (link account : Text) (r : StoredReceivable)
      → require_receivable_any_asset s link account ≡ ok r
      → (lookup (upper r.hash) s.receivables ≡ some r) × IsUpper r.asset
  unfolding require_receivable_any_asset
  require_receivable-found link account r e =
      let found : lookup (upper link) s.receivables ≡ some r = ground arith in
      let fits =
        Each-lookup (ReceivableFits Known) (upper link) r s.receivables h.receivable_fits found in
      (ap (λ i. lookup i s.receivables) (ap upper fits.0 ∙ fits.1) ∙ found, fits.3)

  pub require_lock-found :
      (offer : Text) (l : LockRecord)
      → require_lock s offer ≡ ok l
      → (lookup l.offer s.locks ≡ some l)
        × IsUpper l.offer
        × Known l.offer
        × IsUpper l.asset
        × IsUpper l.want_asset
  unfolding require_lock
  require_lock-found offer l e =
      let found = or_fail-eq-ok (lookup (upper offer) s.locks) _ e in
      let fits = Each-lookup (LockFits Known) (upper offer) l s.locks h.lock_fits found in
      (
        ap (λ i. lookup i s.locks) fits.0 ∙ found,
        ap upper fits.0 ∙ fits.1 ∙ sym fits.0,
        subst Known (sym fits.0) fits.2,
        fits.3,
        fits.4,
      )

pub require_debit-le :
    (s : Ledger) (account : Text) (a : AssetRecord) (n : ℕ)
    → require_debit s account a n ≡ ok tt
    → n ≤ held s account a.id
unfolding require_debit
require_debit-le s account a n e = ground arith

pub circulating_at :
    (x : Text) (a : AssetRecord) (s : Ledger)
    → lookup a.id s.assets ≡ some a
    → (a.id == x) ≡ true
    → circulating_of x s ≡ a.circulating
unfolding circulating_of
circulating_at x a s e same = ground (arith, list_beq_iff a.id x)

pub kei-IsUpper : IsUpper kei_asset
unfolding zero_hash upper
kei-IsUpper = refl

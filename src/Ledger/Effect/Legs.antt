-- ===== src/Ledger/Effect/Legs.antt =====
-- One leg of a swap in packages/core/src/mock/ledger.ts: Kei out of the balance, or units of an asset
-- out of the holdings.
use kei_transaction.Common.Tests.{ℕ, ◌+◌, ◌≡◌, refl, sym, ◌∙◌, Option, none, some, arith}
use kei_transaction.Common.Eq.{◌==◌, text_eq, list_beq_iff}
use kei_transaction.Dict.{lookup}
use kei_transaction.Js.Text.{Text, upper}
use kei_transaction.Core.Errors.{ok}
use kei_transaction.Core.Blocks.{kei_asset}
use kei_transaction.Ledger.State.{Ledger, AssetRecord, LockRecord}
use kei_transaction.Ledger.Guards.{require_delta, require_asset, require_debit, swap_asset}
use kei_transaction.Ledger.SwapOps.{leg_id, lock_asset, pay_leg, refund_leg, debit_leg, credit_leg}
use kei_transaction.Ledger.Supply.{count_if, held_total}
use kei_transaction.Ledger.Supply.Frames
use kei_transaction.Ledger.Supply.Frames.{KeepsChains, SameCirculating, SameReceivable, SameLocked}
use kei_transaction.Ledger.Shape.{IsUpper, HasShape}
use kei_transaction.Ledger.Shape.Writes.{debit-HasShape, credit-HasShape}
use kei_transaction.Ledger.Effect.Facts.{require_asset-found, require_debit-le, kei-IsUpper}

-- A leg that the checks found: Kei, or the ledger's own record of an asset that is not Kei.
abbrev pub LegFound : Ledger → Option AssetRecord → Type 0
LegFound s none = Unit {0}
LegFound s (some a) = (lookup a.id s.assets ≡ some a) × (a.id ≡ kei_asset → ⊥) × IsUpper a.id

pub leg-IsUpper : (s : Ledger) (leg : Option AssetRecord) → LegFound s leg → IsUpper (leg_id leg)
leg-IsUpper s none found = kei-IsUpper
leg-IsUpper s (some a) found = found.2

module _ {Known : Text → Type 0} {s : Ledger} (h : HasShape Known s) where
  pub lock_asset-found :
      (asset : Text) (leg : Option AssetRecord)
      → IsUpper asset
      → lock_asset s asset ≡ ok leg
      → LegFound s leg × (leg_id leg ≡ asset)
  unfolding lock_asset
  lock_asset-found asset none id e = (tt, ground (arith, list_beq_iff asset kei_asset))
  lock_asset-found asset (some a) id e =
      let checked : require_asset s asset ≡ ok a = ground arith in
      let (found, not_kei, named, cased) = require_asset-found h asset a checked in
      ((found, not_kei, cased), sym named ∙ id)

  pub swap_asset-found :
      (asset : Text) (leg : Option AssetRecord) → swap_asset s asset ≡ ok leg → LegFound s leg
  unfolding swap_asset
  swap_asset-found asset none e = tt
  swap_asset-found asset (some a) e =
      let checked : require_asset s (upper asset) ≡ ok a = ground arith in
      let (found, not_kei, named, cased) = require_asset-found h (upper asset) a checked in
      (found, not_kei, cased)

  pub debit_leg-HasShape :
      (leg : Option AssetRecord) (account : Text) (n : ℕ)
      → HasShape Known (debit_leg leg account n s)
  unfolding debit_leg
  debit_leg-HasShape none account n = h
  debit_leg-HasShape (some a) account n = debit-HasShape h account a.id n

  pub credit_leg-HasShape :
      (leg : Option AssetRecord) (account : Text) (n : ℕ)
      → HasShape Known (credit_leg leg account n s)
  unfolding credit_leg
  credit_leg-HasShape none account n = h
  credit_leg-HasShape (some a) account n = credit-HasShape h account a.id n

module _ (s : Ledger) (account : Text) (n : ℕ) where
  pub KeepsChains-debit_leg : (leg : Option AssetRecord) → KeepsChains s (debit_leg leg account n s)
  unfolding debit_leg
  KeepsChains-debit_leg none = record { accounts = refl; blocks = refl; chains = refl }
  KeepsChains-debit_leg (some a) = Frames.KeepsChains-debit account a.id n s

  pub KeepsChains-credit_leg :
      (leg : Option AssetRecord) → KeepsChains s (credit_leg leg account n s)
  unfolding credit_leg
  KeepsChains-credit_leg none = record { accounts = refl; blocks = refl; chains = refl }
  KeepsChains-credit_leg (some a) = Frames.KeepsChains-credit account a.id n s

  pub receivables-debit_leg :
      (leg : Option AssetRecord) → (debit_leg leg account n s).receivables ≡ s.receivables
  unfolding debit_leg
  receivables-debit_leg none = refl
  receivables-debit_leg (some a) = Frames.receivables-debit account a.id n s

  pub locks-debit_leg : (leg : Option AssetRecord) → (debit_leg leg account n s).locks ≡ s.locks
  unfolding debit_leg
  locks-debit_leg none = refl
  locks-debit_leg (some a) = Frames.locks-debit account a.id n s

  pub locks-credit_leg : (leg : Option AssetRecord) → (credit_leg leg account n s).locks ≡ s.locks
  unfolding credit_leg
  locks-credit_leg none = refl
  locks-credit_leg (some a) = Frames.locks-credit account a.id n s

  -- What a paid leg takes: Kei from the balance, or units from the holdings.
  pub pay_leg-kei :
      (leg : Option AssetRecord) (previous new : ℕ)
      → LegFound s leg
      → pay_leg s account previous new leg n ≡ ok tt
      → new + count_if (leg_id leg == kei_asset) n ≡ previous
  unfolding pay_leg require_delta
  pay_leg-kei none previous new found e = ground (arith, list_beq_iff kei_asset kei_asset)
  pay_leg-kei (some a) previous new found e = ground (arith, list_beq_iff a.id kei_asset)

  -- Kei is never held, so the totals of every other asset fall by the leg alone.
  pub totals-debit_leg :
      (leg : Option AssetRecord) (previous new : ℕ)
      → pay_leg s account previous new leg n ≡ ok tt
      → (x : Text)
      → let t = debit_leg leg account n s in
        SameCirculating x s t
        × SameReceivable x s t
        × SameLocked x s t
        × ((x ≡ kei_asset → ⊥) → held_total x t + count_if (leg_id leg == x) n ≡ held_total x s)
  unfolding debit_leg pay_leg
  totals-debit_leg none previous new e x =
      ((refl, refl), refl, refl, λ not_kei. ground (arith, list_beq_iff kei_asset x))
  totals-debit_leg (some a) previous new e x =
      let checked : require_debit s account a n ≡ ok tt = ground arith in
      let (circulating, receivable, locked, moved) =
        Frames.totals-debit account a.id n s x (require_debit-le s account a n checked) in
      (circulating, receivable, locked, λ not_kei. moved)

  pub totals-credit_leg :
      (leg : Option AssetRecord) (x : Text)
      → let t = credit_leg leg account n s in
        SameCirculating x s t
        × SameReceivable x s t
        × SameLocked x s t
        × ((x ≡ kei_asset → ⊥) → held_total x t ≡ held_total x s + count_if (leg_id leg == x) n)
  unfolding credit_leg
  totals-credit_leg none x =
      ((refl, refl), refl, refl, λ not_kei. ground (arith, list_beq_iff kei_asset x))
  totals-credit_leg (some a) x =
      let (circulating, receivable, locked, moved) = Frames.totals-credit account a.id n s x in
      (circulating, receivable, locked, λ not_kei. moved)

-- What a cancel gives back.
pub refund_leg-found :
    {Known : Text → Type 0} {s : Ledger}
    → HasShape Known s
    → (account : Text) (previous new : ℕ) (lock : LockRecord) (leg : Option AssetRecord)
    → IsUpper lock.asset
    → refund_leg s account previous new lock ≡ ok leg
    → LegFound s leg
      × (leg_id leg ≡ lock.asset)
      × (new ≡ previous + count_if (lock.asset == kei_asset) lock.amount)
unfolding refund_leg require_delta
refund_leg-found h account previous new lock none id e =
    (tt, ground (arith, list_beq_iff lock.asset kei_asset), ground arith)
refund_leg-found {s} h account previous new lock (some a) id e =
    let checked : require_asset s lock.asset ≡ ok a = ground arith in
    let (found, not_kei, named, cased) = require_asset-found h lock.asset a checked in
    ((found, not_kei, cased), sym named ∙ id, ground arith)

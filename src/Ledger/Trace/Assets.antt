-- ===== src/Ledger/Trace/Assets.antt =====
-- What the writes of packages/core/src/mock/ledger.ts do to its assets: only the circulation of an
-- issued asset changes, and never past its cap.
use kei_transaction.Common.Tests.{
  ℕ, ◌≤◌, ◌≡◌, refl, sym, ap, ◌∙◌, some, arith, Bool-cases, inl, inr,
}
use mathlib.Core.Path.{subst}
use kei_transaction.Common.Eq.{text_eq, ◌==◌, list_beq_iff}
use kei_transaction.Dict.{lookup}
use kei_transaction.Dict.Laws.{lookup-insert, lookup-insert_ne}
use kei_transaction.Dict.Each.{Each, Each-lookup, Each-insert}
use kei_transaction.Js.Text.{Text}
use kei_transaction.Core.Crypto.{Crypto}
use kei_transaction.Ledger.State.{Ledger, AssetRecord}
use kei_transaction.Ledger.Commit.{
  commit_credit, create_receivable, consume_receivable, set_circulating, set_lock, commit_block,
}
use kei_transaction.Ledger.SwapOps.{add_lock}
use kei_transaction.Ledger.Supply.Frames.{assets-debit}
use kei_transaction.Ledger.Trace.{
  Write, keep, create, consume, debit, credit, circulate, issue, publish, close, claim, offer,
  finish, store, then_,
}

-- The same asset: its issuer, name, symbol, decimals, cap and policies.
abbrev pub SameAsset : AssetRecord → AssetRecord → Type 0
SameAsset a b = b ≡ record a { circulating = b.circulating }

-- No more circulates than the cap allows.
abbrev pub IsCapped : AssetRecord → Type 0
IsCapped a = (cap : ℕ) → a.max_supply ≡ some cap → a.circulating ≤ cap

abbrev pub AllCapped : Ledger → Type 0
AllCapped s = Each (λ (k : Text) (a : AssetRecord). IsCapped a) s.assets

module _ (k : Text) (a : AssetRecord) where
  abbrev Remains : Ledger → Type 0
  Remains s = (b : AssetRecord) × (lookup k s.assets ≡ some b) × SameAsset a b

  circulate_kept :
      (s : Ledger) (new : AssetRecord) (n : ℕ)
      → lookup new.id s.assets ≡ some new
      → lookup k s.assets ≡ some a
      → Remains (set_circulating new n s)
  unfolding set_circulating
  circulate_kept s new n there found = elim (Bool-cases (new.id == k)) [
    | inl here ↦
        let key : new.id ≡ k = (list_beq_iff new.id k).0 here in
        let is_a : some new ≡ some a = sym there ∙ ap (λ i. lookup i s.assets) key ∙ found in
        let eq : new ≡ a = cc in
        (
          record new { circulating = n },
          rw (lookup-insert, here) refl,
          ap (λ (b : AssetRecord). record b { circulating = n }) eq,
        )
    | inr other ↦ (a, rw (lookup-insert, other) found, refl)
  ]

module _ ⦃c : Crypto⦄ where
  pub Write-SameAsset :
      {s t : Ledger} (k : Text) (a : AssetRecord)
      → Write s t
      → lookup k s.assets ≡ some a
      → (b : AssetRecord) × (lookup k t.assets ≡ some b) × SameAsset a b
  unfolding commit_credit create_receivable consume_receivable set_lock add_lock commit_block
  Write-SameAsset k a keep found = (a, found, refl)
  Write-SameAsset k a (create hash r) found = (a, found, refl)
  Write-SameAsset k a (consume r) found = (a, found, refl)
  Write-SameAsset k a (debit {s = s} account x n _) found =
      (a, ap (λ d. lookup k d) (assets-debit account x n s) ∙ found, refl)
  Write-SameAsset k a (credit account x n) found = (a, found, refl)
  Write-SameAsset k a (circulate {s = s} b n there _) found = circulate_kept k a s b n there found
  Write-SameAsset k a (issue {s = s} b account count free _) found =
      (a, lookup-insert_ne k b.id b s.assets (λ same. cc) ∙ found, refl)
  Write-SameAsset k a (publish p _) found = (a, found, refl)
  Write-SameAsset k a (close j p _) found = (a, found, refl)
  Write-SameAsset k a (claim account root) found = (a, found, refl)
  Write-SameAsset k a (offer hash account new free) found = (a, found, refl)
  Write-SameAsset k a (finish old new _ _ _ _) found = (a, found, refl)
  Write-SameAsset k a (store b hash new _ _ _) found = (a, found, refl)
  Write-SameAsset k a (then_ first rest) found =
      let (b, at, same) = Write-SameAsset k a first found in
      let (d, then_at, same') = Write-SameAsset k b rest at in
      (d, then_at, same' ∙ ap (λ (e : AssetRecord). record e { circulating = d.circulating }) same)

  pub Write-AllCapped : {s t : Ledger} → Write s t → AllCapped s → AllCapped t
  unfolding commit_credit create_receivable consume_receivable set_circulating set_lock add_lock
      commit_block
  Write-AllCapped keep h = h
  Write-AllCapped (create hash r) h = h
  Write-AllCapped (consume r) h = h
  Write-AllCapped (debit {s = s} account x n _) h =
      subst (λ d. Each (λ (k : Text) (a : AssetRecord). IsCapped a) d)
        (sym (assets-debit account x n s)) h
  Write-AllCapped (credit account x n) h = h
  Write-AllCapped (circulate {s = s} a n there keeps) h =
      let before =
        Each-lookup (λ (k : Text) (b : AssetRecord). IsCapped b) a.id a s.assets h there in
      Each-insert (λ (k : Text) (b : AssetRecord). IsCapped b) a.id (record a { circulating = n })
        s.assets (λ cap capped. keeps cap capped (before cap capped)) h
  Write-AllCapped (issue {s = s} a account count _ nothing) h =
      Each-insert (λ (k : Text) (b : AssetRecord). IsCapped b) a.id a s.assets
        (λ cap capped. omega (arith, nothing)) h
  Write-AllCapped (publish p _) h = h
  Write-AllCapped (close j p _) h = h
  Write-AllCapped (claim account root) h = h
  Write-AllCapped (offer hash account new free) h = h
  Write-AllCapped (finish old new _ _ _ _) h = h
  Write-AllCapped (store b hash new _ _ _) h = h
  Write-AllCapped (then_ first rest) h = Write-AllCapped rest (Write-AllCapped first h)

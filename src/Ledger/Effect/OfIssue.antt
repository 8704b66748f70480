-- ===== src/Ledger/Effect/OfIssue.antt =====
-- The effect of an issuance (`applyAsset` of packages/core/src/mock/ledger.ts): the asset starts
-- empty, and its burn leaves the account's balance.
use native.Mathlib.Numerals.{add-one}
use kei_transaction.Common.Tests.{sym, ◌++◌, List, ℕ, ◌+◌, ◌≡◌, refl, ◌∙◌, none, arith}
use kei_transaction.Common.Eq.{text_eq, list_beq_iff}
use kei_transaction.Dict.{lookup}
use kei_transaction.Dict.Laws.{lookup-insert}
use kei_transaction.Dict.Sum.{sum-insert}
use kei_transaction.Dict.Each.{Each-insert}
use kei_transaction.Js.Text.{utf8, Text}
use kei_transaction.Core.Errors.{ok}
use kei_transaction.Core.Amount.{issuance_burn}
use kei_transaction.Core.Hex.{hex_to_bytes, bytes_to_hex, upper-bytes_to_hex}
use kei_transaction.Core.Crypto.{Crypto, NoZeroDigest}
use kei_transaction.Core.Merkle.{derive_asset_id}
use kei_transaction.Core.Blocks.{normalize_symbol, IssueOp, kei_asset}
use kei_transaction.Ledger.State.{Ledger, LedgerTransition, AssetRecord}
use kei_transaction.Ledger.IssueOps.{issued, new_asset, check_issue_burn, record_issue, apply_issue}
use kei_transaction.Ledger.IssueOps.Accepted.{burn_paid, issue-inv}
use kei_transaction.Ledger.Supply.{
  circulating_of, held_total, receivable_total, locked_total, burned_total, burned_for,
}
use kei_transaction.Ledger.Shape.{IsUpper, AssetFits}
use kei_transaction.Ledger.Effect.{IsValid, Outcome}
use kei_transaction.Ledger.Effect.Facts.{widen}

burned_for-step : (n : ℕ) → burned_for (n + 1) ≡ burned_for n + issuance_burn n
unfolding burned_for
burned_for-step n = rw add-one refl

module _ ⦃c : Crypto⦄ where
  -- An asset's id is a digest.
  derive_asset_id-inv :
      (key symbol id : Text)
      → derive_asset_id key symbol ≡ ok id
      → (bytes : List ℕ) × (normal : Text) × (hex_to_bytes key ≡ ok bytes)
        × (normalize_symbol symbol ≡ ok normal)
        × (id ≡ bytes_to_hex (c.blake2b (bytes ++ utf8 normal) 32))
  unfolding derive_asset_id
  derive_asset_id-inv key symbol id e = ground arith

  id-IsUpper : (key symbol id : Text) → derive_asset_id key symbol ≡ ok id → IsUpper id
  id-IsUpper key symbol id e =
      let (bytes, normal, _, _, is) = derive_asset_id-inv key symbol id e in
      rw is (upper-bytes_to_hex (c.blake2b (bytes ++ utf8 normal) 32))

  id-ne-kei :
      (key symbol id : Text)
      → NoZeroDigest
      → derive_asset_id key symbol ≡ ok id
      → id ≡ kei_asset
      → ⊥
  id-ne-kei key symbol id law e same =
      let (bytes, normal, _, _, is) = derive_asset_id-inv key symbol id e in
      law (bytes ++ utf8 normal) (sym is ∙ same)

  module _ {s : Ledger} (v : IsValid s) (account : Text) (previous new : ℕ) (a : AssetRecord) where
    burned_total-issue :
        burned_total (record_issue s account previous new a s)
        ≡ burned_total s + issuance_burn (issued s account)
    unfolding burned_total record_issue
    burned_total-issue = ground (
      arith,
      sum-insert (λ (k : Text) (n : ℕ). burned_for n) account (issued s account + 1)
          s.issued_by_account,
      burned_for-step (issued s account),
    )

    circulating_of-issue :
        (x : Text)
        → lookup a.id s.assets ≡ none
        → a.circulating ≡ 0
        → circulating_of x (record_issue s account previous new a s) ≡ circulating_of x s
    unfolding circulating_of record_issue
    circulating_of-issue x unused empty =
        ground (arith, lookup-insert x a.id a s.assets, list_beq_iff a.id x)

    issue_effect :
        (hash : Text)
        → lookup a.id s.assets ≡ none
        → a.circulating ≡ 0
        → (a.id ≡ kei_asset → ⊥)
        → IsUpper a.id
        → new + issuance_burn (issued s account) ≡ previous
        → Outcome s hash previous new (record_issue s account previous new a s)
    unfolding record_issue held_total receivable_total locked_total
    issue_effect hash unused empty not_kei id paid =
        let wide = widen v.shape hash in
        record {
          shape = record {
            asset_fits = Each-insert AssetFits a.id a s.assets (refl, not_kei, id) wide.asset_fits;
            receivable_fits = wide.receivable_fits;
            lock_fits = wide.lock_fits;
            pending_lock = wide.pending_lock;
          };
          balanced = λ x x_not_kei. circulating_of-issue x unused empty ∙ v.balanced x x_not_kei;
          kei = omega (arith, burned_total-issue);
          chains = record { accounts = refl; blocks = refl; chains = refl };
        }

  module _ {s : Ledger} (v : IsValid s) (account : Text) (previous new : ℕ) where
    pub issue-effect :
        (op : IssueOp) (hash : Text) (t : LedgerTransition)
        → NoZeroDigest
        → check_issue_burn s account previous new ≡ ok tt
        → apply_issue s account previous new op ≡ ok t
        → Outcome s hash previous new (t s)
    issue-effect op hash t law paid e =
        let (symbol, key, id, transfer, swap, cap, _, _, derived, _, _, _, unused, is) =
          issue-inv s account previous new op t e in
        let asset = new_asset account op symbol id transfer swap cap in
        rw is (
          issue_effect v account previous new asset hash unused refl
            (id-ne-kei key symbol id law derived) (id-IsUpper key symbol id derived)
            (burn_paid s account previous new paid))

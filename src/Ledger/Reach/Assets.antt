-- ===== src/Ledger/Reach/Assets.antt =====
-- Assets on every ledger that packages/core/src/mock/ledger.ts reaches.
use kei_transaction.Common.Tests.{ℕ, ◌≤◌, ◌≡◌, some}
use kei_transaction.Common.Eq.{text_eq}
use kei_transaction.Dict.{lookup}
use kei_transaction.Dict.Each.{Each-lookup}
use kei_transaction.Js.Text.{Text}
use kei_transaction.Core.Crypto.{Crypto, NoZeroDigest}
use kei_transaction.Ledger.State.{Ledger, AssetRecord, Thresholds}
use kei_transaction.Ledger.Effect.{IsValid}
use kei_transaction.Ledger.Genesis.{GenesisRole, GenesisKey, genesis_roles}
use kei_transaction.Ledger.Genesis.Supply.{AllApart, genesis_supply, genesis-IsBare}
use kei_transaction.Ledger.Reach.{Run, FromGenesis, Run-Write}
use kei_transaction.Ledger.Trace.Assets.{
  SameAsset, IsCapped, AllCapped, Write-SameAsset, Write-AllCapped,
}

module _ ⦃c : Crypto⦄ (law : NoZeroDigest) where
  -- An issued asset stays issued over any run of blocks from a valid ledger, and nothing of it but
  -- its circulation ever changes: not its issuer, its cap or its policies.
  pub asset_permanent :
      (s t : Ledger) (k : Text) (a : AssetRecord)
      → IsValid s
      → Run s t
      → lookup k s.assets ≡ some a
      → (b : AssetRecord) × (lookup k t.assets ≡ some b) × SameAsset a b
  asset_permanent s t k a v run found = Write-SameAsset k a (Run-Write law run v) found

  -- On every ledger that blocks make out of genesis, no more of an asset circulates than its maximum
  -- supply.
  pub reachable_capped :
      (keys : GenesisRole → GenesisKey) (thresholds : Thresholds) (t : Ledger)
      → AllApart keys genesis_roles
      → FromGenesis keys thresholds t
      → (k : Text) (a : AssetRecord) (cap : ℕ) → lookup k t.assets ≡ some a
      → a.max_supply ≡ some cap
      → a.circulating ≤ cap
  reachable_capped keys thresholds t apart (s, built, run) k a cap found capped =
      let (valid, _) = genesis_supply keys thresholds s apart built in
      let none_yet = (genesis-IsBare keys thresholds s apart built).assets in
      let start_capped : AllCapped s = rw none_yet tt in
      Each-lookup (λ (j : Text) (b : AssetRecord). IsCapped b) k a t.assets
        (Write-AllCapped (Run-Write law run valid) start_capped) found cap capped

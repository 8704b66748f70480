-- ===== src/Ledger/Reach/Supply.antt =====
-- The supply of Kei on every ledger that packages/core/src/mock/ledger.ts reaches.
use kei_transaction.Common.Tests.{◌≡◌, ◌∙◌, refl}
use kei_transaction.Core.Errors.{ok}
use kei_transaction.Core.Crypto.{Crypto, NoZeroDigest}
use kei_transaction.Core.Amount.{kei_total_supply}
use kei_transaction.Ledger.State.{Ledger, Thresholds}
use kei_transaction.Ledger.Supply.{IsBalanced, kei_total}
use kei_transaction.Ledger.Effect.{IsValid}
use kei_transaction.Ledger.Conservation.{process_conserves}
use kei_transaction.Ledger.Genesis.{GenesisRole, GenesisKey, genesis_roles, build_genesis}
use kei_transaction.Ledger.Genesis.Supply.{AllApart, genesis_supply}
use kei_transaction.Ledger.Reach.{Run, start, next, AllDeclared, Run-IsValid}

module _ ⦃c : Crypto⦄ (law : NoZeroDigest) where
  Run-kei : {s t : Ledger} (run : Run s t) → AllDeclared run → IsValid s → kei_total t ≡ kei_total s
  Run-kei start declared v = refl
  Run-kei (next now b hash run e) (known, declared) v =
      (process_conserves law (Run-IsValid law run v) now b hash known e).1 ∙ Run-kei run declared v

  -- Every ledger that blocks make out of genesis, one call after another and every state block of a
  -- declared subtype, accounts for the total supply of Kei: balances, receivables, pending locks and
  -- what issuance has burned add up to it; and of every asset, what circulates is what is held,
  -- receivable or locked.
  pub reachable_supply :
      (keys : GenesisRole → GenesisKey) (thresholds : Thresholds) (s t : Ledger) (run : Run s t)
      → AllApart keys genesis_roles
      → build_genesis keys thresholds ≡ ok s
      → AllDeclared run
      → IsBalanced t × (kei_total t ≡ kei_total_supply)
  reachable_supply keys thresholds s t run apart built declared =
      let (valid, total) = genesis_supply keys thresholds s apart built in
      ((Run-IsValid law run valid).balanced, Run-kei run declared valid ∙ total)

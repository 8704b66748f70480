-- ===== src/Ledger/Reach.antt =====
-- Ledgers that packages/core/src/mock/ledger.ts reaches, one accepted block after another, from any
-- ledger and from genesis.
pub mod Supply
pub mod Swaps
pub mod Claims
pub mod Assets
use kei_transaction.Common.Tests.{ℕ, ◌≡◌, true}
use kei_transaction.Js.Text.{Text}
use kei_transaction.Core.Errors.{ok}
use kei_transaction.Core.Crypto.{Crypto, NoZeroDigest}
use kei_transaction.Core.Blocks.{Block, has_declared_subtype}
use kei_transaction.Ledger.State.{Ledger, Thresholds}
use kei_transaction.Ledger.Process.{process}
use kei_transaction.Ledger.Effect.{IsValid}
use kei_transaction.Ledger.Conservation.{process-IsValid}
use kei_transaction.Ledger.Trace.{Write, keep, then_}
use kei_transaction.Ledger.Trace.OfBlock.{process-Write}
use kei_transaction.Ledger.Genesis.{GenesisRole, GenesisKey, build_genesis}

module _ ⦃c : Crypto⦄ where
  pub data Run : Ledger → Ledger → Type 0 where
    start : {s : Ledger} → Run s s
    next :
        {s t u : Ledger} (now : ℕ) (b : Block) (hash : Text)
        → Run s t
        → process now b t ≡ ok (hash, u)
        → Run s u

  -- Every state block of the run has one of the declared subtypes.
  abbrev pub AllDeclared : {s t : Ledger} → Run s t → Type 0
  AllDeclared start = Unit
  AllDeclared (next now b hash run e) = (has_declared_subtype b.body ≡ true) × AllDeclared run

  -- From the ledger of genesis.
  abbrev pub FromGenesis : (GenesisRole → GenesisKey) → Thresholds → Ledger → Type 0
  FromGenesis keys thresholds t = (s : Ledger) × (build_genesis keys thresholds ≡ ok s) × Run s t

  module _ (law : NoZeroDigest) where
    pub Run-IsValid : {s t : Ledger} → Run s t → IsValid s → IsValid t
    Run-IsValid start v = v
    Run-IsValid (next now b hash run e) v = process-IsValid law (Run-IsValid run v) now b hash e

    -- A run is the writes of its blocks.
    pub Run-Write : {s t : Ledger} → Run s t → IsValid s → Write s t
    Run-Write start v = keep
    Run-Write (next now b hash run e) v =
        then_ (Run-Write run v) (process-Write law (Run-IsValid run v) now b hash e)

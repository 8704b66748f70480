-- ===== src/Ledger/Effect.antt =====
-- What one accepted block does to the ledger of packages/core/src/mock/ledger.ts before the block
-- itself is stored: the shape and the balance of every asset are kept, and Kei leaves the account's
-- balance exactly for receivables, locks and the burn.
pub mod Facts
pub mod OfState
pub mod AssetWrites
pub mod OfAsset
pub mod OfIssue
pub mod Legs
pub mod OfAccept
pub mod OfSwap
pub mod OfBlock
use kei_transaction.Common.Tests.{ℕ, ◌+◌, ◌≡◌, ◌⊎◌}
use kei_transaction.Js.Text.{Text}
use kei_transaction.Core.Blocks.{kei_asset}
use kei_transaction.Ledger.State.{Ledger}
use kei_transaction.Ledger.Supply.{receivable_total, locked_total, burned_total, IsBalanced}
use kei_transaction.Ledger.Supply.Frames.{KeepsChains}
use kei_transaction.Ledger.Shape.{HasShape, HasBlock}

-- The ledger's invariant.
pub record IsValid (s : Ledger) : Type 0 where
  pub shape : HasShape (HasBlock s) s
  pub balanced : IsBalanced s

-- A hash of the ledger, or of the block that is being applied.
abbrev pub KnownWith : Ledger → Text → Text → Type 0
KnownWith s hash k = (k ≡ hash) ⊎ HasBlock s k

pub record Outcome (s : Ledger) (hash : Text) (previous new : ℕ) (t : Ledger) : Type 0 where
  pub shape : HasShape (KnownWith s hash) t
  pub balanced : IsBalanced t
  pub kei :
      receivable_total kei_asset t + locked_total kei_asset t + burned_total t + new
      ≡ receivable_total kei_asset s + locked_total kei_asset s + burned_total s + previous
  pub chains : KeepsChains s t

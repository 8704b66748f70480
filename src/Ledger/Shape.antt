-- ===== src/Ledger/Shape.antt =====
-- The shape of the state of packages/core/src/mock/ledger.ts: every entry of an index names itself,
-- and receivables and locks stand under hashes of blocks. What is known of a hash is the parameter
-- `Known`, since a block's own hash joins the ledger last.
pub mod Writes
use kei_transaction.Common.Tests.{◌≡◌, true, none, some}
use kei_transaction.Common.Eq.{text_eq}
use kei_transaction.Dict.{lookup, contains}
use kei_transaction.Dict.Each.{Each}
use kei_transaction.Js.Text.{Text, upper}
use kei_transaction.Core.Blocks.{kei_asset}
use kei_transaction.Ledger.State.{Ledger, AssetRecord, StoredReceivable, LockRecord, pending}

-- A key in the form that lookups ask for.
abbrev pub IsUpper : Text → Type 0
IsUpper k = upper k ≡ k

abbrev pub AssetFits : Text → AssetRecord → Type 0
AssetFits k a = (a.id ≡ k) × (k ≡ kei_asset → ⊥) × IsUpper k

abbrev pub ReceivableFits : (Text → Type 0) → Text → StoredReceivable → Type 0
ReceivableFits Known k r = (r.hash ≡ k) × IsUpper k × Known k × IsUpper r.asset

abbrev pub LockFits : (Text → Type 0) → Text → LockRecord → Type 0
LockFits Known k l = (l.offer ≡ k) × IsUpper k × Known k × IsUpper l.asset × IsUpper l.want_asset

pub record HasShape (Known : Text → Type 0) (s : Ledger) : Type 0 where
  pub asset_fits : Each AssetFits s.assets
  pub receivable_fits : Each (ReceivableFits Known) s.receivables
  pub lock_fits : Each (LockFits Known) s.locks
  -- A pending lock's units are not receivable yet.
  pub pending_lock :
      (k : Text) (l : LockRecord)
      → lookup k s.locks ≡ some l
      → l.state ≡ pending
      → lookup k s.receivables ≡ none

-- The ledger has a block of this hash.
abbrev pub HasBlock : Ledger → Text → Type 0
HasBlock s k = contains k s.blocks ≡ true

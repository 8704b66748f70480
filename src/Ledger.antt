-- ===== src/Ledger.antt =====
-- packages/core/src/mock/ledger.ts: the in-memory ledger.
pub mod State
pub mod Reads
pub mod Guards
pub mod Commit
pub mod StateOps
pub mod IssueOps
pub mod AssetOps
pub mod SwapOps
pub mod Process
pub mod Supply
pub mod Shape
pub mod Effect
pub mod Conservation
pub mod Genesis
pub mod Trace
pub mod Reach
pub mod Chain

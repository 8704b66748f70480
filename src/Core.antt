-- ===== src/Core.antt =====
-- packages/core/src: the parts of the core package below the ledger.
pub mod Errors
pub mod Hex
pub mod Blocks
pub mod Amount
pub mod Crypto
pub mod Address
pub mod Merkle
pub mod Work
pub mod Wire
pub mod Swaps

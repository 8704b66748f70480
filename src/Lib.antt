-- ===== src/Lib.antt =====
-- A model of kei-transaction: the ledger that packages/core/src/mock/ledger.ts keeps in memory, with
-- the rules by which it accepts a block; the modules of packages/core/src that those rules are written
-- with; the trees of packages/claims; and the recipes, drop tables and plans of packages/economy.
--
-- The parts, and the files that model them:
--   Js           strings as lists of UTF-16 code units, a number that the code checks, decimal texts
--   Dict         Map and Set in insertion order, with the laws of each write
--   Core.Errors  errors.ts: `fail(code, …)` is the result `err code`
--   Core.Hex, Core.Address, Core.Amount, Core.Blocks, Core.Merkle, Core.Work, Core.Crypto
--                the files of the same names; Core.Crypto has hashBlock of hash.ts too
--   Core.Wire    wire.ts, and the choice of bytes in hash.ts
--   Core.Swaps   swaps.ts: what is read of a node's answers about offers
--   Ledger.State the records of mock/ledger.ts and node.ts, and the fields of MockLedger
--   Ledger.Genesis   buildGenesis and the empty ledger
--   Ledger.Guards    the private methods and functions that only read and may fail (require…)
--   Ledger.Commit    the private methods that write and cannot fail
--   Ledger.StateOps  applyState
--   Ledger.IssueOps, Ledger.AssetOps, Ledger.SwapOps   the cases of applyAsset
--   Ledger.Process   applyAsset, validateEnvelope and process
--   Ledger.Reads     the reads, weights among them
--   Claims.Tree, Claims.Headroom
--                tree.ts (buildCommit and what its result hands out) and headroom.ts of
--                packages/claims/src
--   Economy.Recipe, Economy.Assets, Economy.Drops, Economy.Plan, Economy.Batch
--                the files of the same names in packages/economy/src; Economy.Batch goes up to the
--                blocks that the client submits
--   Tests        a small instance of the cryptography, and runs of the ledger
--
-- An operation of the ledger is a function of the ledger and the block. It returns an error code or a
-- LedgerTransition, a function from ledgers to ledgers: the closure that the code returns once nothing
-- can fail any more. `process` runs `admit` (what precedes the await of verifyHash) and `settle` (what
-- follows it); theorems about `process` and about runs of blocks are about calls with nothing in
-- between, one after another. The block's text fields arrive unchecked, as in the code, the subtype of
-- a state block among them, and amounts become numbers where the code parses them.
--
-- The parts meet in the tree of a commit: Economy.Drops salts it with the digest of a drop table,
-- Claims.Tree builds it and hands out proofs, the ledger checks a proof in a claim and Economy.Drops
-- checks it for the player. A plan reads the node through the record Node; its checks stand for those
-- of the ledger, which Economy.Plan.Checks compares them with. A list that the source pushes to is
-- what a function returns, in the same order, and a message is left out for its code.
--
-- Proofs: Ledger.Supply counts where units are; Ledger.Shape says that every index names its entries;
-- Ledger.Effect and its children show what each operation does to both; Ledger.Conservation puts them
-- together. Ledger.Trace describes an accepted block as a sequence of checked writes, and invariants
-- are proved by induction on it; Ledger.Reach does the same for runs of blocks. Files named Accepted
-- say what an operation has checked when it is accepted.
--
-- Parameters: the record Crypto stands for bananojs (blake2b, address encoding, signatures) and for
-- the bytes that a block is hashed over, which hashed_bytes of Core.Wire makes. Two laws are asked of
-- it: NoZeroDigest, that no 32-byte digest is all zeros, so that no asset has the id of Kei, and
-- DigestBytes, that such a digest is 32 bytes. The market's listing of offers and the reads of a node
-- are parameters of a plan. The keys that the genesis seeds
-- give are a parameter too; distinct seeds are taken to give distinct addresses.
--
-- Bounds and fuel: amounts are bigints in the code and natural numbers here. decimal_text has one step
-- for every unit of its number, and so more than one for every digit; layers_from has one round for
-- every leaf, which layers_from-ends shows to be enough. `toUpperCase` maps the letters a to z, since
-- only symbols, identifiers and addresses are cased. A roll of a drop table is given by the 32-bit word
-- of its random source; the product with the sum of the weights is rounded to 53 binary digits, as a
-- `number` is, and the sum is taken to be below 2 ^ 53.
--
-- Not modelled: faucet and sendAs (they mine work and sign), subscribe and its closure, key
-- derivation, canonical JSON, the clients, the running of plans and the closing of batches, and the packages
-- market, player-economy, tokens, wallet, work and kei.
pub mod Common
pub mod Dict
pub mod Js
pub mod Core
pub mod Ledger
pub mod Claims
pub mod Economy
pub mod Tests

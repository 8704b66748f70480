-- ===== src/Economy.antt =====
-- packages/economy/src: recipes, drop tables and plans.
pub mod Recipe
pub mod Assets
pub mod Drops
pub mod Plan
pub mod Batch

-- ===== src/Claims.antt =====
-- packages/claims: what an issuer builds, to let many accounts claim from one block.
pub mod Tree
pub mod Headroom

-- ===== src/Chain.antt =====
-- The mirror of the engine's records on a chain: lib/blockchain.
pub mod Records
pub mod Merkle
pub mod Actions
pub mod Approval
pub mod Projection

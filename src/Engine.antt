-- ===== src/Engine.antt =====
-- The engine of lib/engine: errors, token arithmetic, tables, and the services over them.
pub mod Errors
pub mod Calc
pub mod Tables
pub mod Db
pub mod Ports
pub mod Balances
pub mod Books
pub mod Fixture
pub mod Mint
pub mod Advance
pub mod Reversal
pub mod Policy
pub mod Proposal
pub mod Epoch
pub mod Ledger
pub mod System

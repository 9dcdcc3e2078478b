-- ===== src/Engine/Reversal.antt =====
-- lib/engine/reversal-service.ts: the reversal of a mint, as an event of its own.
pub mod Guards
pub mod Reverse
pub mod Supersede

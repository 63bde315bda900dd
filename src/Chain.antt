-- ===== src/Chain.antt =====
-- internal/chain.
pub mod Headers
pub mod State
pub mod Reorg
pub mod Process

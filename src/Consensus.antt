-- ===== src/Consensus.antt =====
-- internal/consensus: the rules for transactions, blocks and timestamps.
pub mod Transactions
pub mod Structure
pub mod Timestamps
pub mod Pow

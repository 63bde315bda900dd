-- ===== src/Tests.antt =====
-- Runs of the definitions on concrete inputs, and the theorems at inputs that meet their hypotheses.
mod Wire
mod Coins
mod Scripts
mod Blocks
mod Headers
mod Work
mod Storage
mod Mining
mod Locked
mod Pool
mod Chains
mod Reorgs
mod Clock

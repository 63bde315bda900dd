-- ===== src/Consensus/Transactions/Connects.antt =====
-- What ValidateTransactionInputs accepts, ConnectBlock connects, and no value comes from nowhere.
pub mod Amounts
mod Simulation
mod Outputs
mod Steps
pub mod Supply

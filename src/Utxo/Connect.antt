-- ===== src/Utxo/Connect.antt =====
-- What ConnectBlock's variables hold, and DisconnectBlock as its inverse.
mod Invariant
pub mod Inverse
pub mod Same

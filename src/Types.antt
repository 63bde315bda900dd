-- ===== src/Types.antt =====
-- internal/types.
pub mod Bytes
pub mod Reader
pub mod VarInt
pub mod Transaction
pub mod Block

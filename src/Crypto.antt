-- ===== src/Crypto.antt =====
-- internal/crypto. SHA-256 and RIPEMD-160, the curve and the signature scheme stand outside this
-- repository: they are parameters.
pub mod Hash
pub mod Keys
pub mod Merkle
pub mod Target

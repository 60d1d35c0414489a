-- ===== src/Fastore.antt =====
-- The library fastore/: AES by intrinsics, the small-domain permutation, order-revealing encryption.
pub mod Platform
pub mod Aes
pub mod Crypto
pub mod Prp
pub mod Ore
pub mod Helper
pub mod Blk

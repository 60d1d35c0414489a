-- ===== src/Caravel.antt =====
-- The library Caravel/.
pub mod BukHash
pub mod ConHash
pub mod Cbc
pub mod Redis
pub mod Digest
pub mod BlindSign

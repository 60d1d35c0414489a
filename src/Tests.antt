-- ===== src/Tests.antt =====
-- Concrete runs, and the theorems applied to them.
pub mod Toy
mod Ore
mod Ciphers
pub mod Pairs
pub mod Store
mod Tables
pub mod Helper
mod Range
mod Ranked
mod Threads
mod Readback
mod Blocks
mod Cbc
pub mod Spread
pub mod Cluster
mod Column
mod Plain
mod Sorted
pub mod Digest
mod Blind

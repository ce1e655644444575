-- ===== src/Stores.antt =====
-- The stores of the package's stores/ directories.
pub mod Sizes
pub mod Tags
pub mod Single
pub mod Chain
pub mod Memory
pub mod Sharded
pub mod Local

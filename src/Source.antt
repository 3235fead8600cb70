-- ===== src/Source.antt =====
-- The source side of the repository: source/.
pub mod Search
pub mod Sort
pub mod Migration
pub mod Migrations
pub mod Driver
pub mod Stub
pub mod Iofs
pub mod Httpfs
pub mod Bindata
pub mod Parse

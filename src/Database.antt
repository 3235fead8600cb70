-- ===== src/Database.antt =====
-- The database side of the repository: database/.
pub mod CockroachDb
pub mod Driver
pub mod Stub
pub mod Sql
pub mod Url
pub mod Sqlite
pub mod Recorder
pub mod Ql
pub mod Util
pub mod Multistmt
pub mod Pq
pub mod Redshift
pub mod Postgres
pub mod Mysql

-- ===== src/Engine.antt =====
-- The package at the root of the repository: migrate.go, migration.go and util.go.
pub mod Util
pub mod Migration
pub mod Feed
pub mod Read
pub mod ReadLimit
pub mod Run
pub mod Recorded
pub mod Clean
pub mod Channel
pub mod Operations
pub mod Plan
pub mod OnStub
pub mod Protocol
pub mod Lock
pub mod New

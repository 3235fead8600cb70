-- ===== src/Cli.antt =====
-- The command line: internal/cli/.
pub mod Commands
pub mod Sequence
pub mod Limit

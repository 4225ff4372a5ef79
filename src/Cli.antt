-- ===== src/Cli.antt =====
-- The command line tool, src/bin/cli.rs, with the formats that it shares with src/lib.rs.
pub mod Ids
pub mod Sink
pub mod Worker
pub mod Threads
pub mod Sample
pub mod Setup

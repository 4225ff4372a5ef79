-- ===== src/Server.antt =====
-- The server, src/bin/server.rs, over the tables of migrations/20230305040305_init.up.sql.
pub mod Rows
pub mod Db
pub mod Ingest
pub mod Requests
pub mod Pages
pub mod Dag
pub mod Subtree

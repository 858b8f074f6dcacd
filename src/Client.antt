-- ===== src/Client.antt =====
-- crates/lumencast-client: the reconnecting client.
pub mod Backoff
pub mod Connection
pub mod Manager

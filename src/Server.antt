-- ===== src/Server.antt =====
-- The server crate, crates/lumencast-server.
pub mod Role
pub mod Auth
pub mod Store
pub mod Replay
pub mod Input
pub mod Scene
pub mod Registry
pub mod Rate
pub mod Calendar
pub mod Connection
pub mod Adapters
pub mod TestControl

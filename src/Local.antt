-- ===== src/Local.antt =====
-- The local socket: crates/subportal-lib/src/client.rs and server.rs.
pub mod Socket
pub mod Client
pub mod Server
pub mod Call
mod Tests

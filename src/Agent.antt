-- ===== src/Agent.antt =====
-- The agent: crates/subportal/src/agent.rs, with `enroll_client` of enrollment.rs. Each locked section
-- is a function on the hub.
pub mod Handshake
pub mod Requests
pub mod Steps
pub mod Socket
pub mod Run
mod Tests

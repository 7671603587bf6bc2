-- ===== src/Peers.antt =====
-- The persistent registries and the enrollment tokens: crates/subportal-iroh/src/peers.rs.
-- Times are numbers of ticks. The file of a registry is its text, if it exists; whether a read or a
-- write succeeds, and what a failed write leaves behind, is an input.
pub mod Registry
pub mod SampleFormat
pub mod Clients
pub mod Servers
pub mod Lookup
pub mod Persistence
pub mod Token
mod Tests

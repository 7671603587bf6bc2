-- ===== src/Desktop.antt =====
-- The desktop client: crates/subportal-desktop/src/handler.rs and dismiss.rs, and the decision of a
-- confirmation of portal.rs. What the portals answer over D-Bus is an input.
pub mod Decision
pub mod Handler
pub mod Portal
pub mod Session
pub mod Run
pub mod Focus
pub mod Enrollment
mod Tests

-- ===== src/Command.antt =====
-- The command-line tools: crates/subportal/src/main.rs and enrollment.rs, crates/xdg-open/src/main.rs and
-- crates/notify-send/src/main.rs. What a tool reads is an input, and a run is its exit code with what it
-- prints.
pub mod Console
pub mod Url
pub mod FileOpen
pub mod NotifyArgs
pub mod NotifySend
pub mod Enrollment
pub mod Subportal
pub mod Confirm
mod Tests

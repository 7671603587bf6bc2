-- ===== src/Android.antt =====
-- The Android client: crates/subportal-android-core/src/lib.rs. The app behind `SubportalCallback` is a
-- record of its answers, and what it is told is the list of the calls that are made of it.
pub mod Requests
pub mod Session
pub mod Runtime
pub mod Connection
pub mod Answers
pub mod Enrollment
mod Tests

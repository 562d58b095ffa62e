-- ===== src/Tests.antt =====
-- Runs at concrete inputs.
pub mod Config
pub mod Edit
pub mod Session
pub mod Storage
pub mod Secret
pub mod RemoteSync
pub mod Rename
pub mod Hosts
pub mod Groups
pub mod Graph
pub mod Commit
pub mod Effective

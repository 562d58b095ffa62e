-- ===== src/Storage.antt =====
-- internal/storage: the journalled replacement of several files at once, and the recovery from a
-- transaction that was interrupted.
pub mod Record
pub mod World
pub mod Apply
pub mod Request
pub mod Planning
pub mod Commit
pub mod Recover

-- ===== src/Effective.antt =====
-- internal/effective: what the program itself reads out of the configuration for a host.
pub mod Reading
pub mod Provenance
pub mod Chain
pub mod Jump
pub mod Danger

-- ===== src/KnownHosts.antt =====
-- internal/knownhosts: the file of the host keys that were accepted.
pub mod File
pub mod Change

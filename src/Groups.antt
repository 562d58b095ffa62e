-- ===== src/Groups.antt =====
-- internal/application: the groups of connections, each a directory that the entry file includes.
pub mod Path
pub mod Region
pub mod Declaration

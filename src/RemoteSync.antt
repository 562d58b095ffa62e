-- ===== src/RemoteSync.antt =====
-- internal/remotesync: the exchange of the workspace with other machines.
pub mod Plan

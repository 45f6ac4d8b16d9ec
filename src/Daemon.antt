-- ===== src/Daemon.antt =====
-- cmd/daemon: the composition root.
pub mod Settings
pub mod Server

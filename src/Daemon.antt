-- ===== src/Daemon.antt =====
-- The periodic tasks of cmd/migration-managerd/internal/api.
pub mod Resume
pub mod Finish

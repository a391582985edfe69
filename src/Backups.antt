-- ===== src/Backups.antt =====
-- The backups of the administration page (components/admin/AdminBackupManager.tsx).
pub mod Progress
pub mod Schedule
pub mod Files

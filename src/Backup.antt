-- ===== src/Backup.antt =====
-- Backups, backup.go and the backup half of mongo.go.
pub mod Dump
pub mod Prune
pub mod Restore
pub mod Schedule
pub mod PruneLaws

-- ===== src/Maintenance/Backup.antt =====
-- The backups that ansible/host-maintenance/files/maintenance-agent.py stops before a reboot and
-- starts again after it.
pub mod Arguments
pub mod Signature
pub mod Journal
pub mod Replays
pub mod Prepare

-- ===== src/Maintenance.antt =====
-- ansible/host-maintenance/files/maintenance-agent.py: the agent that updates and reboots the hosts.
pub mod Exec
pub mod Pve
pub mod Backup
pub mod Agent

-- ===== src/Tests.antt =====
-- The theorems at concrete inputs, and runs of the code.
mod Agent
mod Maintenance
mod Monitor
mod RecSync
mod Tiered

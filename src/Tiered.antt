-- ===== src/Tiered.antt =====
-- ansible/pbs/files/pbs-tiered.py and pbs-capacity-hook.py: the backups that are verified are copied to
-- an archive, and the copied ones are kept from pruning.
pub mod Select
pub mod Pins
pub mod Daily
pub mod Capacity
pub mod Chosen
pub mod Pruned

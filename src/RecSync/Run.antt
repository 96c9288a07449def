-- ===== src/RecSync/Run.antt =====
-- `main` of docker/annict-rec-sync/sync.py: the settings, the state of a run, and what it does with
-- one work. The candidates of a work are in `Candidates`, the booking in `Booking`.
pub mod Candidates
pub mod Booking
pub mod Main
pub mod Keeps
pub mod Steps
pub mod Posts
pub mod Whole
pub mod Choice
pub mod Totals

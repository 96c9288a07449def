-- ===== src/RecSync.antt =====
-- docker/annict-rec-sync/sync.py: the daily job that reserves recordings.
pub mod Text
pub mod Title
pub mod Channel
pub mod Schedule
pub mod Http
pub mod Scraper
pub mod Quarter
pub mod Reserves
pub mod Season
pub mod Run

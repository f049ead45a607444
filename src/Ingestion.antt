-- ===== src/Ingestion.antt =====
-- src/fin_data_platform/ingestion: the synchronisation of daily bars.
pub mod DailyBar
pub mod Latest
pub mod Rows
pub mod Sync
pub mod Resync
pub mod Tasks
pub mod Tests

-- ===== src/Storage.antt =====
-- src/fin_data_platform/storage: reads at a point in time and idempotent writes of append-only tables.
pub mod Readers
pub mod Writers
pub mod PointInTime
pub mod Appends
pub mod Listed

-- ===== src/Registry.antt =====
-- src/fin_data_platform/registry: entities with their dated rows, codes, relations and identifiers.
pub mod Models
pub mod Repository
pub mod Rows
pub mod Codes
pub mod Register
pub mod Names
pub mod Relations
pub mod Universe
pub mod Build
pub mod AsOf
pub mod History
pub mod Renaming
pub mod Inverse
pub mod PointInTime
pub mod Idempotence
pub mod Tests

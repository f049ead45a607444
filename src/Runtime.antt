-- ===== src/Runtime.antt =====
-- src/fin_data_platform/runtime: the control plane.
pub mod Result
pub mod Models
pub mod Keys
pub mod Repository
pub mod Sql
pub mod Dispatcher
pub mod Windows
pub mod Tasks
pub mod Validation
pub mod Worker
pub mod Tests

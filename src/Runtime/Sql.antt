-- ===== src/Runtime/Sql.antt =====
-- src/fin_data_platform/runtime/repository.py, `SqlMetaRepository`: the same store in a database.
pub mod Table
pub mod Database
pub mod Inserts
pub mod Runs
pub mod Queries
pub mod Marks
pub mod Simulation
pub mod Create
pub mod Finish
pub mod Claim
pub mod Tests
pub mod Read

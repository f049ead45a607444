-- ===== src/Runtime/Repository.antt =====
-- src/fin_data_platform/runtime/repository.py, `InMemoryMetaRepository`: the store of runs,
-- definitions, dependencies and watermarks; its methods first, then what they guarantee.
pub mod State
pub mod Runs
pub mod Queries
pub mod Marks
pub mod Invariant
pub mod Preserve
pub mod Steps
pub mod Watermarks
pub mod Claim
pub mod Finish
pub mod Reclaim
pub mod Create
pub mod Terminal
pub mod Ready

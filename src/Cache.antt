-- ===== src/Cache.antt =====
-- src/fin_data_platform/cache: the cache in memory, the generations of its domains, and its keys.
pub mod Memory
pub mod Keys
pub mod Layered
pub mod Backends
pub mod Tests

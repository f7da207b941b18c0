-- ===== src/CacheSim.antt =====
-- labs/05-cache: the cache simulator of cache.c, params.c and csim.c.
pub mod Params
pub mod Addresses
pub mod Sets
pub mod Whole
pub mod Runs
pub mod Initial
pub mod Counting
mod Tests

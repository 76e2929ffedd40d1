-- ===== src/Cache.antt =====
-- labs/distributed-systems/04-cache-races/cache_race_demo.py: a cache with a version fence.
pub mod State
pub mod Race
pub mod Fence
pub mod Examples

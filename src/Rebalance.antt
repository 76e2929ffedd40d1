-- ===== src/Rebalance.antt =====
-- labs/distributed-systems/05-shard-rebalancing/shard_rebalance_demo.py: the cluster and the migration of a
-- virtual shard.
pub mod Types
pub mod Cluster
pub mod Ownership
pub mod Examples
mod Partition

-- ===== src/Fencing.antt =====
-- labs/distributed-systems/03-fencing-tokens/fencing_demo.py: leases, fencing tokens, and the
-- resources that check or ignore them.
pub mod Lease
pub mod Traces
pub mod Stale
pub mod Examples

-- ===== src/Outbox.antt =====
-- labs/distributed-systems/02-transactional-outbox/outbox_lab.py: the transactional outbox and the idempotent inbox.
pub mod Tables
pub mod Relay
pub mod Consumer
pub mod Invariant
pub mod Transactions
pub mod Marks
pub mod Effects
pub mod Runs
pub mod Settled
pub mod Examples

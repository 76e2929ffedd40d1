-- ===== src/Queue.antt =====
-- labs/distributed-systems/06-queue-redelivery/queue_delivery_demo.py: a broker and its consumers.
pub mod Broker
pub mod Consumer
pub mod Rule
pub mod Invariant
pub mod Receipts
pub mod Delivery
pub mod Leases
pub mod Order
pub mod Effects
pub mod Traces
mod Examples

-- ===== src/Repair.antt =====
-- labs/kubernetes/01-node-repair-state-machine/node_repair.py: the node repair controller.
pub mod Types
pub mod Fleet
pub mod Controller
pub mod Justified
pub mod Outcome
pub mod Distinct
pub mod Systemic
pub mod Breaker
pub mod Limits
pub mod Removals
pub mod Safety
pub mod Examples

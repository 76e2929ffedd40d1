-- ===== src/Failover.antt =====
-- labs/reliability/02-disaster-recovery-state-machine/dr_failover.py: the failover state machine.
pub mod Types
pub mod Guards
pub mod Step
pub mod Spec
pub mod Validity
pub mod Writers
pub mod Eligibility
pub mod Traffic
pub mod Runs
pub mod Inputs
pub mod Termination
mod Examples

-- ===== src/Rollout.antt =====
-- The fleet rollout planner, labs/platform-engineering/05-fleet-rollout-planner/plan_rollout.py.
pub mod Input
pub mod Policy
pub mod Decide
pub mod Batches
mod Selections
mod Rounds
mod Complete
pub mod Plan
mod Inputs
pub mod Scheduled
mod Examples

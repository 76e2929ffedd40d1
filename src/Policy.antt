-- ===== src/Policy.antt =====
-- The staged policy evaluation, labs/platform-engineering/02-policy-rollout/evaluate_policy.py.
pub mod Resource
pub mod Evaluate
pub mod Digests
pub mod Documents
pub mod Exceptions
pub mod Denied
mod Examples

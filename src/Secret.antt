-- ===== src/Secret.antt =====
-- The validator of secret delivery contracts,
-- labs/platform-engineering/06-secret-delivery-contract/validate_secret_contract.py.
pub mod Authority
pub mod Delivery
pub mod Application
pub mod Validate
mod Sound
mod Kept
mod Outages
mod Promises
mod Examples

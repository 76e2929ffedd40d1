-- ===== src/Tenant.antt =====
-- The validator of tenant packages,
-- labs/platform-engineering/03-tenant-isolation-contract/validate_tenant.py.
pub mod Package
pub mod Workload
pub mod Validate
mod Confined
mod Specs
mod Isolated
mod Promises
mod Examples

-- ===== src/Mesh.antt =====
-- labs/service-mesh/01-xds-mtls-dns-failover/mesh_contract_lab.py: contracts of a service mesh.
pub mod Contract
pub mod Xds
pub mod Rotation
pub mod Shift
pub mod Examples

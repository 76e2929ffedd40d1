-- ===== src/Telemetry.antt =====
-- labs/observability/01-telemetry-pipeline/telemetry_lab.py: a bounded telemetry pipeline.
pub mod Pipeline
pub mod Bounds
pub mod Examples

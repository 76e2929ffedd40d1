-- ===== src/Overload.antt =====
-- labs/reliability/03-overload-blast-radius/overload_lab.py: admission under overload.
pub mod Admission
pub mod Bounds
pub mod Replay
pub mod Headroom
pub mod Examples

-- ===== src/Bench.antt =====
-- tms/bench: when to measure, what a cluster was like when it was measured, and two runs compared.
pub mod Schedules
pub mod Guard
pub mod Compare

-- ===== src/Timing.antt =====
-- DRAM timing (include/hbmsim/timing and src/timing).
pub mod Spec
pub mod Engine

-- ===== src/System.antt =====
-- The memory system (include/hbmsim/hbm_system.h and src/hbm_system.cpp).
pub mod Config
pub mod Admission
pub mod Events
pub mod Presets
pub mod Splitting
pub mod State
pub mod Transaction

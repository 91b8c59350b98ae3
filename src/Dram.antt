-- ===== src/Dram.antt =====
-- The DRAM standards (include/hbmsim/dram, include/hbmsim/media/bank_state.h and
-- src/dram/hbm_standard.cpp): commands, bank state, the rule tables and the three profiles.
pub mod Address
pub mod Command
pub mod Standard
pub mod Profiles
pub mod Progress

-- ===== src/Units.antt =====
-- src/core/UnitFsm.h and .cpp: the state machine that drives a unit.
pub mod Fsm
pub mod Ticks

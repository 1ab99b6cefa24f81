-- ===== src/Server/StrictTask.antt =====
-- server/game/StrictVmfTask.h and .cpp: the strict tasks, in which each of four seats acts in turn.
pub mod Task
pub mod Set
pub mod Steps
pub mod Exclusive
pub mod Creation
pub mod Chain
pub mod Actions

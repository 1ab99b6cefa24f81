-- ===== src/Strike.antt =====
-- src/core/GuidedStrikeWorkflow.h and .cpp: the guided strike, a workflow in which people approve
-- each stage.
pub mod State
pub mod Posted
pub mod Incoming
pub mod Orders
pub mod Invariant
pub mod Held
pub mod OrdersInvariant
pub mod Progress
pub mod History
pub mod Retry

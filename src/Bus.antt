-- ===== src/Bus.antt =====
-- src/core/MessageBus.h and .cpp: the message types, the registered units, the communication graph,
-- and the window of the automatic messages that were seen.
pub mod Message
pub mod Registry
pub mod Graph
pub mod Window
pub mod Delivery

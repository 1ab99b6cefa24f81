-- ===== src/Vmf/RuntimeState.antt =====
-- src/vmf/VmfRuntimeState.h and .cpp: the persisted state of the VMF control plane.
pub mod Check
pub mod State
pub mod Unique
pub mod Entries
pub mod Operations
pub mod RoundTrip

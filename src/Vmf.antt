-- ===== src/Vmf.antt =====
-- src/vmf: the bit streams of the codec, the codec over them, and the state of the VMF control
-- plane that is persisted.
pub mod BitStream
pub mod Codec
pub mod RuntimeState

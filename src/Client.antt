-- ===== src/Client.antt =====
-- The client's copy of the server's state.
pub mod Store
pub mod Sequence
pub mod Coherence

-- ===== src/Vmf/Codec.antt =====
-- src/vmf/VmfCodec.cpp: messages as trees, after the trees of a dictionary, and their bits.
pub mod Tree
pub mod Encode
pub mod Decode
pub mod Preserved
pub mod Tiling
pub mod Recorded
pub mod Conforms
pub mod Writing
pub mod Replay
pub mod Rebuild
pub mod Length
pub mod Serving
pub mod RoundTrip

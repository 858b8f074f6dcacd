-- ===== src/Protocol.antt =====
-- The protocol crate, crates/lumencast-protocol: data of the wire, paths, sequence numbers, codec.
pub mod Json
pub mod Errors
pub mod LeafPath
pub mod Types
pub mod Frames
pub mod Sequence
pub mod Codec
pub mod Bundle
pub mod Layout

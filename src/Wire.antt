-- ===== src/Wire.antt =====
-- kvserve_v1/compression/wire.py: the payload that a compressed KV cache travels in.
pub mod Torch
pub mod Obj
pub mod Packing
pub mod Coalesce
pub mod Body
pub mod Expanding
pub mod Splitting
pub mod Build
pub mod Restore
pub mod Metadata
pub mod Roundtrip
pub mod Success
mod Tests

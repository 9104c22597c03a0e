-- ===== src/Layout.antt =====
-- kvserve_v1/compression/runtime/layout.py: where build_compression_layout puts the raw scratch, the
-- packed stream and the quantisation parameters of every layer.
pub mod Integers
pub mod Data
pub mod Section
pub mod Tail
pub mod Build
pub mod Outcome
pub mod Totality
pub mod Soundness
pub mod Heads
pub mod Streams
pub mod Auxiliary
pub mod TailBounds
mod Tests

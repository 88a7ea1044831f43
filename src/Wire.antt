-- ===== src/Wire.antt =====
-- The Cursus wire protocol, pkg/wire.
pub mod Message
pub mod Bytes
pub mod Encoder
pub mod Decoder
pub mod Record
pub mod Batch
pub mod Tests

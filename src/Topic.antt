-- ===== src/Topic.antt =====
-- Partitions of topics, pkg/topic/partition.go.
pub mod Types
pub mod Producers
pub mod Markers
pub mod Appends
pub mod Compacted
pub mod Watermark
pub mod Calls
pub mod Bounds
pub mod Coverage
pub mod Retries
pub mod Produce
pub mod Copies
pub mod Reads
pub mod Scans
pub mod Tests

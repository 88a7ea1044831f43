-- ===== src/Replication.antt =====
-- The replication of partitions in a cluster, pkg/cluster/replication.
pub mod Types
pub mod Commands
pub mod Histories
pub mod Epochs
pub mod Isr
pub mod Failover
pub mod Tests

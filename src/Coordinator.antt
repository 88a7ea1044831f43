-- ===== src/Coordinator.antt =====
-- The consumer-group coordinator, pkg/coordinator.
pub mod Types
pub mod Members
pub mod Rebalance
pub mod Offsets
pub mod Commits
pub mod Calls
pub mod Refusals
pub mod History
pub mod Fencing
pub mod Batches
pub mod Lifecycle
pub mod Epochs
pub mod Tests
pub mod LifecycleTests

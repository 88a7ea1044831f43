-- ===== src/Transaction.antt =====
-- The transaction coordinator, pkg/transaction.
pub mod Types
pub mod Manager
pub mod Calls
pub mod Replica
pub mod Topics
pub mod Events
pub mod Machine
pub mod Checks
pub mod Refines
pub mod Fencing
pub mod Versions
pub mod Health
pub mod Convergence
pub mod Offsets
pub mod Deletion
pub mod Survival
pub mod Decision
mod Samples
mod Tests
mod ReplicaTests

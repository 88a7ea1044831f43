-- ===== src/Transaction/Manager.antt =====
-- The operations of `Manager` in pkg/transaction/manager.go that clients of the coordinator call.
-- A method returns the manager after the call and its result, so that a write before an error
-- return is kept. The time that the method reads is an argument; the mutex makes each call one step.
pub mod Lifetime
pub mod Staging
pub mod Decisions
unfoldable pub use Lifetime.*
unfoldable pub use Staging.*
unfoldable pub use Decisions.*

-- ===== src/Dispatch.antt =====
-- internal/dispatcher.go: `MemoryDispatchStore`, which turns pending deltas into jobs.
pub mod Pending
pub mod Staging
pub mod Applied
pub mod Dispatches

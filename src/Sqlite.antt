-- ===== src/Sqlite.antt =====
-- pkg/connectors/sqlite: the stores on SQLite. A table is the list of its rows, and a statement of
-- the source is a function of the rows, with its conditions and assignments.
pub mod Sql
pub mod Rows
pub mod WorkerLock
pub mod WorkerLocks
pub mod Create
pub mod Leases
pub mod DeltaRows
pub mod Deltas
pub mod DeltaBatch
pub mod DeltaDispatch
pub mod Tables
pub mod Owned
pub mod Claim
pub mod Ordering
pub mod Transitions
pub mod Refinement
pub mod Bounds
pub mod Atomic
pub mod LeaseQueries
pub mod Created
pub mod Claims
pub mod Failures
pub mod Histories
pub mod Counted
pub mod Delivered
pub mod Outcomes
pub mod Marking

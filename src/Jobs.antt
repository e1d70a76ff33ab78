-- ===== src/Jobs.antt =====
-- internal/store.go, `JobMemoryStore`: the in-memory job store. `State` holds the store and its
-- tests on a job; the next four hold the methods; the others hold the proofs.
pub mod State
pub mod Create
pub mod Claim
pub mod Owned
pub mod Operator
pub mod Queries
pub mod Calls
pub mod Edges
pub mod Invariant
pub mod Claimable
pub mod Batches
pub mod Performs
pub mod Insertion
pub mod Creation
pub mod Histories
pub mod Leases
pub mod Claims
pub mod Outcomes
pub mod Recovery
pub mod Retries

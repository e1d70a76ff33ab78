-- ===== src/Deltas.antt =====
-- internal/store.go, `DeltaMemoryStore`: the in-memory delta store. `State` holds the store, the next
-- three the methods; the others hold the proofs.
pub mod State
pub mod Enqueue
pub mod Batch
pub mod Pull
pub mod Invariant
pub mod Idempotence
pub mod Batches
pub mod Accepted

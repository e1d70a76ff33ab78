-- ===== src/Worker.antt =====
-- pkg/deltaflow/worker.go: `SyncWorker`, one cycle of dispatching, claiming, projecting, applying.
pub mod Config
pub mod Finish
pub mod Process
pub mod Cycle
pub mod Invariant
pub mod Endings
pub mod Routines
pub mod Renewals

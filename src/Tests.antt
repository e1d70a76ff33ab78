-- ===== src/Tests.antt =====
-- Runs of the modelled code on small inputs: internal/store.go, internal/dispatcher.go,
-- pkg/deltaflow/worker.go and pkg/runtime/registry.go.
mod Data
mod Jobs
mod Deltas
mod Worker
mod Runtime
mod Sqlite
mod SqliteDeltas
mod Config

-- ===== src/Lib.antt =====
-- Deltaflow turns changes of a source (deltas) into jobs that bring a projection of the changed
-- thing up to date in a target. A delta store keeps the deltas, a dispatcher makes one job of each, a
-- job store leases jobs to workers, and a worker claims jobs, asks a projector for the projection,
-- hands it to an applier, and records the outcome. The in-memory stores are modelled in full; each
-- method is a function from the store, the context's state, the arguments and the clock to the new
-- store and the answer. A mutex of the source makes each method one step.
--
-- Model: pkg/deltaflow/deltaflow.go, delta.go and errors.go: the data types (Model/Records) and the
--   sentinel errors with Go's pair of a value and an error (Model/Errors).
-- Ids: the loops that number deltas and jobs, of internal/store.go and internal/dispatcher.go.
-- Dedup: ComputeDedupKey of pkg/connectors/delta_store_base.go, projectionKeyHash of
--   internal/store.go; Dedup/Injective is about what is written to the digest.
-- Deltas: DeltaMemoryStore of internal/store.go. Enqueue, Batch (EnqueueBatch) and Pull (Pull,
--   MarkDispatched) hold the methods; Invariant, Idempotence, Batches and Accepted the proofs.
-- Jobs: JobMemoryStore of internal/store.go. Create, Claim (ClaimNext, ClaimNextBatch), Owned
--   (RenewLease, MarkSynced, MarkRetrying, RequeueClaimed, MarkDead), Operator (ForceRelease and
--   RequeueExpiredLease) and Queries (the three lease lists) hold the methods, Calls the histories of
--   calls by any number of workers. Edges is the state diagram of a job, and Performs relates each
--   call to it; Invariant, Creation, Insertion and Histories are about well-formed stores, Claimable,
--   Claims and Batches about claiming, Leases, Outcomes, Retries and Recovery about who may change a
--   job and what that leaves.
-- Dispatch: DispatchPending of internal/dispatcher.go (Pending); Staging, Applied and Dispatches are
--   about its loops.
-- Worker: SyncWorker of pkg/deltaflow/worker.go: Config (validation, sizes, backoff), Finish (what
--   ends a run, and the heartbeat), Process (processJob), Cycle (claimBatch, processBatch, RunOnce);
--   Invariant, Renewals, Endings and Routines hold the proofs.
-- Connectors: pkg/connectors: Prepare (job_store_base.go and delta_store_base.go: defaults, preparation,
--   ValidateEnqueueBatch) and Violations (IsUniqueViolation).
-- Sqlite: pkg/connectors/sqlite: Sql (what the statements mean), Rows, Owned, Claim, Leases and Create
--   (job_store.go), DeltaRows, Deltas and DeltaBatch (delta_store.go), DeltaDispatch (delta_store.go and
--   dispatch_store.go), WorkerLock (worker_lock.go). Tables and Ordering relate a table to a Go map;
--   Transitions, Refinement, Claims, LeaseQueries and Histories relate the job store to the in-memory
--   one; Created and Outcomes are about Create, Counted about EnqueueBatch, Marking and
--   Delivered about DispatchPending; Failures, Atomic, Bounds and WorkerLocks hold further proofs.
-- Runtime: pkg/runtime: Registry (registry.go) and Runner (runner.go: BuildFromConfig, RunOnce) hold
--   the operations, Resolution and Building proofs, Running the workers over shared in-memory stores.
-- Config: internal/config/config.go: Schema holds the parsed file, Validate the validation, Accepted the
--   proofs.
-- Cli: internal/cli/run.go: Run holds the pure parts of the run command, Heartbeat the proofs.
-- Prelude: the library's names, and lemmas on lists, texts, maps and sorting. Tests: small runs.
--
-- A Go map is an association list, read by its keys only or sorted by an order that ends with the
-- identifier. A string is its list of bytes, a time its nanoseconds since Go's zero time, a duration
-- an integer; counters and times are unbounded, and so the source's int64 and int must not overflow.
-- A state or an origin is one of the declared constants or the empty string. The numbering loops run
-- on fuel, one more than the map has entries: each round that goes on has met another entry.
-- The heartbeat's ticks are given for each stretch of a run; so are the contexts and the clocks.
-- The digest, the JSON encoding, the projector, the applier and the factories are parameters.
--
-- A table of SQLite is the list of its rows, a statement a function on it, and a transaction that does
-- not commit leaves it as it was. A session gives the state of the context each time that a call asks
-- for it, and the error, if any, of each step that the engine takes; a step with an error does nothing.
-- The texts of the JSON encoding, the random part of identifiers, and what the engine's errors look like
-- are parameters; a violated foreign key is an error of the step.
--
-- Not modelled: log lines and measured durations; copies (values are not shared here); the PostgreSQL
-- stores, the migrations, the appliers, loading the configuration file, the host, and of the command
-- line what opens stores and runs routines; and routines of one worker that run beside each other.
pub mod Prelude
pub mod Model
pub mod Ids
pub mod Dedup
pub mod Jobs
pub mod Deltas
pub mod Dispatch
pub mod Worker
pub mod Runtime
pub mod Tests
pub mod Config
pub mod Cli
pub mod Connectors
pub mod Sqlite

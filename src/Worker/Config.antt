-- ===== src/Worker/Config.antt =====
-- pkg/deltaflow/worker.go: the configuration of a worker, its validation, the effective sizes, the
-- worker identifiers of the routines and the backoff.
use deltaflow.Prelude.{
  ℕ, zero, suc, ◌*◌, ℤ, Str, if◌then◌else◌, Option, none, some, ◌++◌, is_empty, is_nonpos, to_count,
  codes, itoa,
}
use deltaflow.Model.{Error, external}

pub record WorkerConfig : Type 0 where
  pub sync_id : Str
  pub worker_id : Str
  pub lock_for : ℤ
  pub pull_size : ℤ
  pub batch_size : ℤ
  pub concurrency : ℤ

-- `Validate`
unfoldable pub validate : WorkerConfig → Option Error
validate c =
    if is_empty c.sync_id
    then some (external (codes "sync worker config: sync_id is required"))
    else if is_empty c.worker_id
    then some (external (codes "sync worker config: worker_id is required"))
    else if is_nonpos c.lock_for
    then some (external (codes "sync worker config: lock_for must be positive"))
    else none

-- `effectiveBatchSize` and `effectiveConcurrency`
abbrev pub at_least_one : ℤ → ℕ
at_least_one n = if is_nonpos n then 1 else to_count n

unfoldable pub effective_batch_size : WorkerConfig → ℕ
effective_batch_size c = at_least_one c.batch_size

unfoldable pub effective_concurrency : WorkerConfig → ℕ
effective_concurrency c = at_least_one c.concurrency

-- `effectivePullSize`
unfoldable pub effective_pull_size : WorkerConfig → ℕ
unfolding effective_batch_size effective_concurrency
effective_pull_size c =
    if is_nonpos c.pull_size
    then effective_concurrency c * effective_batch_size c
    else to_count c.pull_size

-- `WorkerIDForRoutine`; a negative routine is not modelled, the code never asks for one.
unfoldable pub worker_id_for_routine : Str → ℕ → Str
worker_id_for_routine worker_id zero = worker_id
worker_id_for_routine worker_id (suc n) = worker_id ++ codes "-r" ++ itoa (suc n)

abbrev pub second : ℕ
second = 1000000000

-- `workerBackoff`, in nanoseconds.
unfoldable pub worker_backoff : ℕ → ℕ
worker_backoff zero = 5 * second
worker_backoff (suc zero) = 5 * second
worker_backoff (suc (suc zero)) = 30 * second
worker_backoff (suc (suc (suc zero))) = 120 * second
worker_backoff (suc (suc (suc (suc _)))) = 300 * second

-- ===== src/Worker/Finish.antt =====
-- pkg/deltaflow/worker.go: what ends a job's run: `markSynced`, `failOrRetryWithWorker`,
-- `requeueClaimedJobs`; and `heartbeatLeaseWithWorker`, which renews its lease meanwhile. The job
-- store is internal/store.go's `JobMemoryStore`.
use deltaflow.Prelude.{◌+◌, ℤ, Str, Bool, if◌then◌else◌, Option, none, some, List, [], ◌∷◌, leb}
use deltaflow.Model.{Time, SyncJob, Ctx, Error, lease_renewal_failed}
use deltaflow.Jobs.State.{JobStore}
use deltaflow.Jobs.Owned.{renew_lease, mark_synced, mark_retrying, mark_dead, requeue_claimed}
use deltaflow.Worker.Config.{worker_backoff}

-- One call that ends a run: the state of its context, which `finalizeContext` detaches from the
-- cycle's and gives two seconds; the worker's clock, and the store's.
pub record Finish : Type 0 where
  pub ctx : Ctx
  pub worker_now : Time
  pub store_now : Time

-- `failOrRetryWithWorker`
unfoldable pub fail_or_retry : JobStore → SyncJob → Str → Error → Finish → JobStore × Option Error
unfolding worker_backoff mark_dead mark_retrying
fail_or_retry s job worker_id e f =
    let next_attempt = job.attempt_count + 1 in
    if leb job.max_attempts next_attempt
    then mark_dead f.ctx s job.id worker_id (some e) f.store_now
    else mark_retrying f.ctx s job.id worker_id (some e)
        (f.worker_now + worker_backoff next_attempt) f.store_now

-- `markSynced`
unfoldable pub finish_synced : JobStore → Str → Str → Bool → Finish → JobStore × Option Error
unfolding mark_synced
finish_synced s job_id worker_id ghost f = mark_synced f.ctx s job_id worker_id ghost f.store_now

-- `requeueClaimedJobs`; `next_run_at` is read once, the rest for each job. Its failures are logged.
unfoldable pub requeue_claimed_jobs :
    JobStore → Str → List SyncJob → Error → Time → (Str → Finish) → JobStore
unfolding requeue_claimed
requeue_claimed_jobs s worker_id [] reason next_run_at f = s
requeue_claimed_jobs s worker_id (job ∷ jobs) reason next_run_at f =
    let (s', _) =
      requeue_claimed (f job.id).ctx s job.id worker_id (some reason) next_run_at
        (f job.id).store_now in
    requeue_claimed_jobs s' worker_id jobs reason next_run_at f

-- A tick of the heartbeat: the store's clock, and the state of the job's context then.
pub record Tick : Type 0 where
  pub at : Time
  pub ctx : Ctx

-- `heartbeatLeaseWithWorker` over the ticks of a stretch of time: it stops at the first renewal
-- that fails, with the error that it sends.
unfoldable pub heartbeat : JobStore → Str → Str → ℤ → List Tick → JobStore × Option Error
unfolding renew_lease
heartbeat s job_id worker_id lock_for [] = (s, none)
heartbeat s job_id worker_id lock_for (t ∷ ts) =
    let (s', e) = renew_lease t.ctx s job_id worker_id lock_for t.at in
    elim e [
      | none ↦ heartbeat s' job_id worker_id lock_for ts
      | some reason ↦ (s', some (lease_renewal_failed reason))
    ]

-- ===== src/Worker/Cycle.antt =====
-- pkg/deltaflow/worker.go: `claimBatch`, `processBatch`, `dispatchDeltas` and `RunOnce` with one
-- routine, over internal/store.go's and internal/dispatcher.go's stores.
use deltaflow.Prelude.{
  ℕ, zero, suc, ℤ, pos, Str, Bool, true, false, Option, none, some, List, [], ◌∷◌, ◌++◌,
}
use deltaflow.Model.{Time, SyncJob, Ctx, Error, Result, ok, err, nil_dereference, diverges}
use deltaflow.Jobs.State.{JobStore}
use deltaflow.Jobs.Claim.{claim_next, claim_next_batch}
use deltaflow.Dispatch.Pending.{DispatchStore, dispatch_pending}
use deltaflow.Worker.Config.{
  WorkerConfig, validate, effective_batch_size, effective_pull_size, worker_id_for_routine,
}
use deltaflow.Worker.Finish.{Finish, requeue_claimed_jobs}
use deltaflow.Worker.Process.{Plugins, Schedule, process_job}

-- What the cycle meets outside: the context of each claim and the store's clock then, each job's
-- schedule, the context before each job, and the calls that requeue.
pub record Surroundings : Type 0 where
  pub claim_ctx : ℕ → Ctx
  pub claim_now : ℕ → Time
  pub job_schedule : Str → Schedule
  pub ctx_before : Str → Ctx
  pub requeue_now : Time
  pub requeue_finish : Str → Finish

-- The loop of `claimBatch` for a store without batch claims; `round` counts the claims.
unfoldable pub claim_one_by_one :
    Surroundings
    → JobStore
    → Str
    → Str
    → ℤ
    → ℕ
    → ℕ
    → List SyncJob
    → JobStore × Result (List SyncJob)
unfolding claim_next requeue_claimed_jobs
claim_one_by_one o s sync_id worker_id lock_for zero round jobs = (s, ok jobs)
claim_one_by_one o s sync_id worker_id lock_for (suc more) round jobs =
    let (s', r) = claim_next (o.claim_ctx round) s sync_id worker_id lock_for (o.claim_now round) in
    elim r [
      | err e ↦ (requeue_claimed_jobs s' worker_id jobs e o.requeue_now o.requeue_finish, err e)
      | nil_dereference ↦ (s', nil_dereference)
      | diverges ↦ (s', diverges)
      | ok none ↦ (s', ok jobs)
      | ok (some job) ↦
          claim_one_by_one o s' sync_id worker_id lock_for more (suc round) (jobs ++ (job ∷ []))
    ]

-- `claimBatch`; `batches` tells whether the store has batch claims.
unfoldable pub claim_batch :
    Bool → Surroundings → JobStore → Str → Str → ℤ → ℕ → JobStore × Result (List SyncJob)
unfolding claim_next_batch claim_one_by_one
claim_batch true o s sync_id worker_id lock_for size =
    claim_next_batch (o.claim_ctx 0) s sync_id worker_id (pos size) lock_for (o.claim_now 0)
claim_batch false o s sync_id worker_id lock_for size =
    claim_one_by_one o s sync_id worker_id lock_for size 0 []

-- The loop of `processBatch`.
unfoldable pub process_jobs :
    Plugins → Surroundings → JobStore → Str → ℤ → List SyncJob → JobStore × Option Error
unfolding process_job requeue_claimed_jobs
process_jobs x o s worker_id lock_for [] = (s, none)
process_jobs x o s worker_id lock_for (job ∷ jobs) = elim (o.ctx_before job.id) [
  | some e ↦
      (requeue_claimed_jobs s worker_id (job ∷ jobs) e o.requeue_now o.requeue_finish, some e)
  | none ↦
      let (s', r) = process_job x s worker_id lock_for job (o.job_schedule job.id) in
      elim r [
        | some e ↦ (requeue_claimed_jobs s' worker_id jobs e o.requeue_now o.requeue_finish, some e)
        | none ↦ process_jobs x o s' worker_id lock_for jobs
      ]
]

-- `processBatch` from the claim's answer on.
unfoldable pub process_claimed :
    Plugins
    → Surroundings
    → Str
    → ℤ
    → JobStore × Result (List SyncJob)
    → JobStore × Result (Option Error)
unfolding process_jobs
process_claimed x o worker_id lock_for (s, err e) = (s, ok (some e))
process_claimed x o worker_id lock_for (s, nil_dereference) = (s, nil_dereference)
process_claimed x o worker_id lock_for (s, diverges) = (s, diverges)
process_claimed x o worker_id lock_for (s, ok jobs) =
    let (s', e) = process_jobs x o s worker_id lock_for jobs in (s', ok e)

-- `processBatch`
unfoldable pub process_batch :
    Bool → Plugins → Surroundings → JobStore → Str → Str → ℤ → ℕ → JobStore × Result (Option Error)
unfolding claim_batch process_claimed
process_batch batches x o s sync_id worker_id lock_for size =
    process_claimed x o worker_id lock_for (claim_batch batches o s sync_id worker_id lock_for size)

-- `dispatchDeltas`, when the worker has a dispatcher, after `Validate`.
unfoldable pub dispatch_deltas :
    Ctx → WorkerConfig → DispatchStore → Time → DispatchStore × Result (List SyncJob)
unfolding validate effective_pull_size dispatch_pending
dispatch_deltas ctx c d now = elim (validate c) [
  | some e ↦ (d, err e)
  | none ↦ dispatch_pending ctx d c.sync_id (pos (effective_pull_size c)) now
]

-- `RunOnce` from the dispatch's answer on, with one routine.
unfoldable pub run_dispatched :
    Plugins
    → Surroundings
    → WorkerConfig
    → DispatchStore × Result (List SyncJob)
    → DispatchStore × Result (Option Error)
unfolding process_batch worker_id_for_routine
run_dispatched x o c (d, err e) = (d, ok (some e))
run_dispatched x o c (d, nil_dereference) = (d, nil_dereference)
run_dispatched x o c (d, diverges) = (d, diverges)
run_dispatched x o c (d, ok _) =
    let (s, e) =
      process_batch true x o d.job_store c.sync_id (worker_id_for_routine c.worker_id 0) c.lock_for
        (effective_batch_size c) in
    (record { delta_store = d.delta_store; job_store = s }, e)

-- `RunOnce` of a worker with one routine; none of its dependencies is nil.
unfoldable pub run_once :
    Plugins
    → Surroundings
    → Ctx
    → WorkerConfig
    → DispatchStore
    → Time
    → DispatchStore × Result (Option Error)
unfolding dispatch_deltas run_dispatched
run_once x o ctx c d now = run_dispatched x o c (dispatch_deltas ctx c d now)

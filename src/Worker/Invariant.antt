-- ===== src/Worker/Invariant.antt =====
-- pkg/deltaflow/worker.go: a worker's cycle and the invariants of the two stores.
use deltaflow.Prelude.{
  ℕ, ℤ, pos, Str, Bool, true, false, Option, none, some, List, [], ◌∷◌, ◌+◌, leb, Bool-cases,
  Option-cases, inl, inr,
}
use deltaflow.Model.{
  Time, SyncJob, Ctx, Error, Result, ok, err, nil_dereference, diverges, Projection,
}
use deltaflow.Jobs.State.{JobStore}
use deltaflow.Jobs.Invariant.{Inv}
use deltaflow.Jobs.Calls.{perform, renews, syncs, retries, requeues, buries, claims_batch}
use deltaflow.Jobs.Claim.{claim_next_batch}
use deltaflow.Jobs.Owned.{renew_lease, requeue_claimed}
use deltaflow.Jobs.Histories.{perform-Inv}
use deltaflow.Dispatch.Pending.{DispatchStore}
use deltaflow.Dispatch.Applied as Both
use deltaflow.Dispatch.Dispatches.{dispatch_pending-Inv}
use deltaflow.Worker.Config.{
  WorkerConfig, validate, effective_batch_size, effective_pull_size, worker_backoff,
  worker_id_for_routine,
}
use deltaflow.Worker.Finish.{
  Finish, fail_or_retry, finish_synced, requeue_claimed_jobs, Tick, heartbeat,
}
use deltaflow.Worker.Process.{
  Plugins, Schedule, heartbeat_on, conclude, apply_and_conclude, process_projected, process_job,
  is_not_found, job_ctx, job_identity,
}
use deltaflow.Worker.Cycle.{
  Surroundings, claim_batch, process_jobs, process_batch, dispatch_deltas, run_once,
  process_claimed, run_dispatched,
}
use deltaflow.Model.{ProjectionOperation}

fail_or_retry-Inv :
    (s : JobStore) (job : SyncJob) (w : Str) (e : Error) (f : Finish)
    → Inv s
    → Inv (fail_or_retry s job w e f).0
unfolding fail_or_retry
fail_or_retry-Inv s job w e f v = elim (Bool-cases (leb job.max_attempts (job.attempt_count + 1))) [
  | inl last ↦
      rw last (unfold perform in perform-Inv (buries job.id w (some e)) f.ctx f.store_now s v)
  | inr more ↦
      let next = f.worker_now + worker_backoff (job.attempt_count + 1) in
      rw more (unfold perform in perform-Inv (retries job.id w (some e) next) f.ctx f.store_now s v)
]

finish_synced-Inv :
    (s : JobStore) (id w : Str) (ghost : Bool) (f : Finish)
    → Inv s
    → Inv (finish_synced s id w ghost f).0
unfolding finish_synced
finish_synced-Inv s id w ghost f v =
    unfold perform in perform-Inv (syncs id w ghost) f.ctx f.store_now s v

requeue_claimed_jobs-Inv :
    (w : Str) (jobs : List SyncJob) (e : Error) (next : Time) (f : Str → Finish) (s : JobStore)
    → Inv s
    → Inv (requeue_claimed_jobs s w jobs e next f)
unfolding requeue_claimed_jobs
requeue_claimed_jobs-Inv w [] e next f s v = v
requeue_claimed_jobs-Inv w (job ∷ jobs) e next f s v =
    let s' = (requeue_claimed (f job.id).ctx s job.id w (some e) next (f job.id).store_now).0 in
    requeue_claimed_jobs-Inv w jobs e next f s' (
      unfold perform in
      perform-Inv (requeues job.id w (some e) next) (f job.id).ctx (f job.id).store_now s v)

heartbeat-Inv :
    (id w : Str) (lock_for : ℤ) (ts : List Tick) (s : JobStore)
    → Inv s
    → Inv (heartbeat s id w lock_for ts).0
unfolding heartbeat
heartbeat-Inv id w lock_for [] s v = v
heartbeat-Inv id w lock_for (t ∷ ts) s v =
    let r = renew_lease t.ctx s id w lock_for t.at in
    let v' : Inv r.0 = unfold perform in perform-Inv (renews id w lock_for) t.ctx t.at s v in
    elim (Option-cases r.1) [
      | inl going ↦ rw (going, heartbeat) (heartbeat-Inv id w lock_for ts r.0 v')
      | inr (e, failed) ↦ rw (failed, heartbeat) v'
    ]

heartbeat_on-Inv :
    (b : JobStore × Option Error) (id w : Str) (lock_for : ℤ) (ts : List Tick)
    → Inv b.0
    → Inv (heartbeat_on b id w lock_for ts).0
heartbeat_on-Inv (s, none) id w lock_for ts v = heartbeat-Inv id w lock_for ts s v
heartbeat_on-Inv (s, some e) id w lock_for ts v = v

conclude-Inv :
    (b : JobStore × Option Error) (job : SyncJob) (w : Str) (lock_for : ℤ) (t : Schedule)
    (e : Option Error) (ghost : Bool)
    → Inv b.0
    → Inv (conclude b job w lock_for t e ghost).0
unfolding conclude
conclude-Inv (s, some beat) job w lock_for t e ghost v = fail_or_retry-Inv s job w beat t.finish v
conclude-Inv (s, none) job w lock_for t (some e) ghost v =
    fail_or_retry-Inv (heartbeat s job.id w lock_for t.closing).0 job w e t.finish
      (heartbeat-Inv job.id w lock_for t.closing s v)
conclude-Inv (s, none) job w lock_for t none ghost v =
    finish_synced-Inv (heartbeat s job.id w lock_for t.closing).0 job.id w ghost t.finish
      (heartbeat-Inv job.id w lock_for t.closing s v)

apply_and_conclude-Inv :
    (x : Plugins) (b : JobStore × Option Error) (job : SyncJob) (w : Str) (lock_for : ℤ)
    (t : Schedule) (op : ProjectionOperation) (ghost : Bool)
    → Inv b.0
    → Inv (apply_and_conclude x b job w lock_for t op ghost).0
unfolding apply_and_conclude
apply_and_conclude-Inv x b job w lock_for t op ghost v =
    conclude-Inv (heartbeat_on b job.id w lock_for t.applying) job w lock_for t _ ghost
      (heartbeat_on-Inv b job.id w lock_for t.applying v)

process_projected-Inv :
    (x : Plugins) (b : JobStore × Option Error) (job : SyncJob) (w : Str) (lock_for : ℤ)
    (t : Schedule) (r : Projection × Option Error)
    → Inv b.0
    → Inv (process_projected x b job w lock_for t r).0
unfolding process_projected
process_projected-Inv x b job w lock_for t (p, none) v =
    apply_and_conclude-Inv x b job w lock_for t _ false v
process_projected-Inv x b job w lock_for t (p, some e) v = elim (Bool-cases (is_not_found e)) [
  | inl gone ↦ rw gone (apply_and_conclude-Inv x b job w lock_for t _ true v)
  | inr failed ↦ rw failed (conclude-Inv b job w lock_for t (some e) false v)
]

process_job-Inv :
    (x : Plugins) (s : JobStore) (w : Str) (lock_for : ℤ) (job : SyncJob) (t : Schedule)
    → Inv s
    → Inv (process_job x s w lock_for job t).0
unfolding process_job
process_job-Inv x s w lock_for job t v =
    let b = heartbeat s job.id w lock_for t.projecting in
    process_projected-Inv x b job w lock_for t (x.project (job_ctx t.ctx b.1) (job_identity job))
      (heartbeat-Inv job.id w lock_for t.projecting s v)

process_jobs-Inv :
    (x : Plugins) (o : Surroundings) (w : Str) (lock_for : ℤ) (jobs : List SyncJob) (s : JobStore)
    → Inv s
    → Inv (process_jobs x o s w lock_for jobs).0
unfolding process_jobs
process_jobs-Inv x o w lock_for [] s v = v
process_jobs-Inv x o w lock_for (job ∷ jobs) s v = elim (Option-cases (o.ctx_before job.id)) [
  | inr (e, ended) ↦
      rw (ended, process_jobs)
        (requeue_claimed_jobs-Inv w (job ∷ jobs) e o.requeue_now o.requeue_finish s v)
  | inl going ↦
      let r = process_job x s w lock_for job (o.job_schedule job.id) in
      let v' = process_job-Inv x s w lock_for job (o.job_schedule job.id) v in
      elim (Option-cases r.1) [
        | inl fine ↦ rw (going, fine, process_jobs) (process_jobs-Inv x o w lock_for jobs r.0 v')
        | inr (e, failed) ↦
            rw (going, failed, process_jobs)
              (requeue_claimed_jobs-Inv w jobs e o.requeue_now o.requeue_finish r.0 v')
      ]
]

Result-Inv :
    (x : Plugins) (o : Surroundings) (w : Str) (lock_for : ℤ) (s : JobStore)
    (r : Result (List SyncJob))
    → Inv s
    → Inv (process_claimed x o w lock_for (s, r)).0
unfolding process_claimed
Result-Inv x o w lock_for s (ok jobs) v = process_jobs-Inv x o w lock_for jobs s v
Result-Inv x o w lock_for s (err e) v = v
Result-Inv x o w lock_for s nil_dereference v = v
Result-Inv x o w lock_for s diverges v = v

process_batch-Inv :
    (x : Plugins) (o : Surroundings) (s : JobStore) (sync_id w : Str) (lock_for : ℤ) (size : ℕ)
    → Inv s
    → Inv (process_batch true x o s sync_id w lock_for size).0
unfolding process_batch claim_batch
process_batch-Inv x o s sync_id w lock_for size v =
    let r = claim_next_batch (o.claim_ctx 0) s sync_id w (pos size) lock_for (o.claim_now 0) in
    Result-Inv x o w lock_for r.0 r.1 (
      unfold perform in
      perform-Inv (claims_batch sync_id w (pos size) lock_for) (o.claim_ctx 0) (o.claim_now 0) s v)

dispatch_deltas-Inv :
    (ctx : Ctx) (c : WorkerConfig) (d : DispatchStore) (now : Time)
    → Both.Inv d
    → Both.Inv (dispatch_deltas ctx c d now).0
unfolding dispatch_deltas
dispatch_deltas-Inv ctx c d now v = elim (Option-cases (validate c)) [
  | inr (e, invalid) ↦ rw (invalid, dispatch_deltas) v
  | inl valid ↦
      rw (valid, dispatch_deltas)
        (dispatch_pending-Inv ctx d c.sync_id (pos (effective_pull_size c)) now v)
]

pub run_dispatched-Inv :
    (x : Plugins) (o : Surroundings) (c : WorkerConfig) (d : DispatchStore)
    (r : Result (List SyncJob))
    → Both.Inv d
    → Both.Inv (run_dispatched x o c (d, r)).0
unfolding run_dispatched
run_dispatched-Inv x o c d (ok jobs) v = record {
  deltas = v.deltas;
  jobs =
      process_batch-Inv x o d.job_store c.sync_id (worker_id_for_routine c.worker_id 0) c.lock_for
        (effective_batch_size c) v.jobs;
}
run_dispatched-Inv x o c d (err e) v = v
run_dispatched-Inv x o c d nil_dereference v = v
run_dispatched-Inv x o c d diverges v = v

-- One cycle of a worker with one routine leaves well-formed stores well formed on every branch,
-- whatever the projector, the applier, the heartbeat's ticks, the contexts and the clocks are.
pub run_once-Inv :
    (x : Plugins) (o : Surroundings) (ctx : Ctx) (c : WorkerConfig) (d : DispatchStore) (now : Time)
    → Both.Inv d
    → Both.Inv (run_once x o ctx c d now).0
unfolding run_once
run_once-Inv x o ctx c d now v =
    let r = dispatch_deltas ctx c d now in
    run_dispatched-Inv x o c r.0 r.1 (dispatch_deltas-Inv ctx c d now v)

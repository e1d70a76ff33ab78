-- ===== src/Worker/Process.antt =====
-- pkg/deltaflow/worker.go: `processJob`. The projector and the applier, which the program's user
-- supplies, are parameters. The heartbeat runs beside the call; its ticks are given for each
-- stretch of the call.
use deltaflow.Prelude.{ℤ, Str, Bool, true, false, if◌then◌else◌, Option, none, some, List}
use deltaflow.Model.{
  SyncJob, Ctx, Error, canceled, projection_not_found, lease_renewal_failed, ProjectionIdentity,
  Projection, ProjectionOperation, upsert, delete,
}
use deltaflow.Jobs.State.{JobStore}
use deltaflow.Worker.Finish.{Finish, fail_or_retry, finish_synced, Tick, heartbeat}

-- The interfaces `Projector` and `ProjectionApplier`. They see the job's context as it is when they
-- return.
pub record Plugins : Type 0 where
  pub project : Ctx → ProjectionIdentity → Projection × Option Error
  pub apply : Ctx → ProjectionOperation → Option Error

-- The ticks while the projector runs, while the applier runs, and after the heartbeat's error was
-- asked for; the cycle's context; and the call that ends the run.
pub record Schedule : Type 0 where
  pub projecting : List Tick
  pub applying : List Tick
  pub closing : List Tick
  pub ctx : Ctx
  pub finish : Finish

-- `errors.Is(err, ErrProjectionNotFound)`
abbrev pub is_not_found : Error → Bool
is_not_found projection_not_found = true
is_not_found (lease_renewal_failed e) = is_not_found e
is_not_found _ = false

-- The job's context: a failed heartbeat cancels it.
abbrev pub job_ctx : Ctx → Option Error → Ctx
job_ctx (some e) beat = some e
job_ctx none (some _) = some canceled
job_ctx none none = none

-- The heartbeat over a further stretch: one that has failed has stopped.
abbrev pub heartbeat_on :
    JobStore × Option Error → Str → Str → ℤ → List Tick → JobStore × Option Error
heartbeat_on (s, none) job_id worker_id lock_for ts = heartbeat s job_id worker_id lock_for ts
heartbeat_on (s, some e) job_id worker_id lock_for ts = (s, some e)

-- After the projector or the applier, with the error of that call: the heartbeat's error is asked
-- for first. `ghost` is what a success records.
unfoldable pub conclude :
    JobStore × Option Error
    → SyncJob
    → Str
    → ℤ
    → Schedule
    → Option Error
    → Bool
    → JobStore × Option Error
unfolding heartbeat fail_or_retry finish_synced
conclude (s, some beat) job worker_id lock_for t e ghost =
    fail_or_retry s job worker_id beat t.finish
conclude (s, none) job worker_id lock_for t (some e) ghost =
    fail_or_retry (heartbeat s job.id worker_id lock_for t.closing).0 job worker_id e t.finish
conclude (s, none) job worker_id lock_for t none ghost =
    finish_synced (heartbeat s job.id worker_id lock_for t.closing).0 job.id worker_id ghost
      t.finish

abbrev pub delete_operation : ProjectionIdentity → ProjectionOperation
delete_operation i = record { type = delete; identity = i; projection = none }

abbrev pub upsert_operation : ProjectionIdentity → Projection → ProjectionOperation
upsert_operation i p = record { type = upsert; identity = i; projection = some p }

abbrev pub job_identity : SyncJob → ProjectionIdentity
job_identity job = record { type = job.projection_type; key = job.projection_key }

-- The applier's call, and what follows.
unfoldable pub apply_and_conclude :
    Plugins
    → JobStore × Option Error
    → SyncJob
    → Str
    → ℤ
    → Schedule
    → ProjectionOperation
    → Bool
    → JobStore × Option Error
unfolding conclude heartbeat
apply_and_conclude x b job worker_id lock_for t op ghost =
    let b' = heartbeat_on b job.id worker_id lock_for t.applying in
    conclude b' job worker_id lock_for t (x.apply (job_ctx t.ctx b'.1) op) ghost

-- `processJob` from the projector's answer on.
unfoldable pub process_projected :
    Plugins
    → JobStore × Option Error
    → SyncJob
    → Str
    → ℤ
    → Schedule
    → Projection × Option Error
    → JobStore × Option Error
unfolding apply_and_conclude conclude
process_projected x b job worker_id lock_for t (p, none) =
    apply_and_conclude x b job worker_id lock_for t (upsert_operation (job_identity job) p) false
process_projected x b job worker_id lock_for t (p, some e) =
    if is_not_found e
    then apply_and_conclude x b job worker_id lock_for t (delete_operation (job_identity job)) true
    else conclude b job worker_id lock_for t (some e) false

-- `processJob`
unfoldable pub process_job :
    Plugins → JobStore → Str → ℤ → SyncJob → Schedule → JobStore × Option Error
unfolding heartbeat process_projected
process_job x s worker_id lock_for job t =
    let b = heartbeat s job.id worker_id lock_for t.projecting in
    process_projected x b job worker_id lock_for t
      (x.project (job_ctx t.ctx b.1) (job_identity job))

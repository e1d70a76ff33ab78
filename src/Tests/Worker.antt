-- ===== src/Tests/Worker.antt =====
-- Runs of internal/dispatcher.go and of pkg/deltaflow/worker.go.
use deltaflow.Prelude.{
  some, codes, ℕ, pos, ◌≡◌, refl, none, [], ◌∷◌, lookup, insert, str_eq, str_lt, sort_by, insert_by,
}
use deltaflow.Model.{ok, external}
use deltaflow.Deltas.Enqueue.{enqueue}
use deltaflow.Deltas.Idempotence.{enqueue-Inv}
use deltaflow.Deltas.Invariant.{new_delta_store-Inv}
use deltaflow.Jobs.State.{job_lease_owned, claimable_job, new_job_store}
use deltaflow.Jobs.Claim.{
  claim_next, claim_first, claimable_job_ids, claimable_entries, claim_before,
}
use deltaflow.Jobs.Owned.{renew_lease, mark_synced, update_owned, lease_result}
use deltaflow.Jobs.Invariant.{new_job_store-Inv}
use deltaflow.Dispatch.Pending.{DispatchStore, dispatch_pending}
use deltaflow.Dispatch.Applied.{Inv}
use deltaflow.Dispatch.Dispatches.{Dispatched, dispatch_pending-Dispatched}
use deltaflow.Worker.Config.{WorkerConfig, validate}
use deltaflow.Worker.Finish.{Finish, finish_synced, heartbeat}
use deltaflow.Worker.Process.{
  Plugins, Schedule, conclude, apply_and_conclude, process_projected, process_job,
}
use deltaflow.Worker.Cycle.{Surroundings, run_once}
use deltaflow.Worker.Endings.{Ended, process_job-Ended}
use deltaflow.Worker.Invariant.{run_once-Inv}
use deltaflow.Worker.Routines.{worker_id_for_routine-injective}
use deltaflow.Runtime.Runner.{SyncWorker, PipelineRunner, run_built, run_failed}
use deltaflow.Runtime.Running.{
  Project, Apply, run_worker, run_built-Inv, validate_run_once_dependencies,
}
use deltaflow.Tests.Deltas.{plain_codec, change, store}
use deltaflow.Tests.Jobs.{claim_a, claimed_1, worker_a, contacts}

-- One pending delta and no jobs.
abbrev waiting : DispatchStore
waiting = record {
  delta_store = (enqueue none plain_codec store change 10).0;
  job_store = new_job_store;
}

waiting-Inv : Inv waiting
waiting-Inv = record {
  deltas = enqueue-Inv none plain_codec store change 10 (new_delta_store-Inv (pos 10));
  jobs = new_job_store-Inv;
}

dispatch_pending-Dispatched_example :
    Dispatched waiting contacts (pos 3) 20 (dispatch_pending none waiting contacts (pos 3) 20)
dispatch_pending-Dispatched_example =
    dispatch_pending-Dispatched waiting contacts (pos 3) 20 waiting-Inv

-- A projector that finds everything, and an applier that takes everything.
abbrev willing : Plugins
willing = record {
  project = λ ctx i. (record { identity = i; payload = []; media_type = []; checksum = [] }, none);
  apply = λ ctx op. none;
}

abbrev finish_90 : Finish
finish_90 = record { ctx = none; worker_now = 90; store_now = 90 }

abbrev schedule : Schedule
schedule = record {
  projecting = record { at = 60; ctx = none } ∷ [];
  applying = [];
  closing = [];
  ctx = none;
  finish = finish_90;
}

abbrev surroundings : Surroundings
surroundings = record {
  claim_ctx = λ round. none;
  claim_now = λ round. 30;
  job_schedule = λ id. schedule;
  ctx_before = λ id. none;
  requeue_now = 95;
  requeue_finish = λ id. finish_90;
}

abbrev config : WorkerConfig
config = record {
  sync_id = contacts;
  worker_id = worker_a;
  lock_for = pos 100;
  pull_size = pos 3;
  batch_size = pos 2;
  concurrency = pos 1;
}

process_job_lem : (process_job willing claim_a.0 worker_a (pos 100) claimed_1 schedule).1 ≡ none
unfolding process_job process_projected apply_and_conclude conclude finish_synced heartbeat
    renew_lease mark_synced update_owned lease_result job_lease_owned claim_next claim_first
    claimable_job_ids claimable_entries claim_before claimable_job lookup insert str_eq str_lt
    sort_by insert_by
process_job_lem = refl

process_job-Ended_example :
    Ended willing claimed_1 worker_a
      (pos 100)
      finish_90
      claim_a.0
      (process_job willing claim_a.0 worker_a (pos 100) claimed_1 schedule).0
process_job-Ended_example =
    process_job-Ended willing claim_a.0 worker_a (pos 100) claimed_1 schedule process_job_lem

run_once-Inv_example : Inv (run_once willing surroundings none config waiting 20).0
run_once-Inv_example = run_once-Inv willing surroundings none config waiting 20 waiting-Inv

abbrev contacts_worker : SyncWorker ℕ ℕ Project Apply
contacts_worker = record {
  job_store = some 1;
  dispatcher = some 1;
  projector = willing.project;
  applier = willing.apply;
  config = config;
}

abbrev contacts_runner : PipelineRunner ℕ ℕ Project Apply
contacts_runner = record {
  name = codes "p";
  sync_id = config.sync_id;
  worker = some contacts_worker;
}

run_built-Inv_example :
    Inv
      (run_built
        (run_worker none (λ i. surroundings) (λ i. 20))
        waiting
        (some (contacts_runner ∷ []))).0
run_built-Inv_example =
    run_built-Inv none (λ i. surroundings) (λ i. 20) waiting (some (contacts_runner ∷ []))
      waiting-Inv

worker_id_for_routine-injective_example : ◌≡◌ {A = ℕ} 2 2
worker_id_for_routine-injective_example = worker_id_for_routine-injective worker_a 2 2 refl

-- A worker without a job store runs nothing.
no_store-refused :
    run_built (run_worker none (λ i. surroundings) (λ i. 20)) waiting (
      some (
        record contacts_runner { worker = some (record contacts_worker { job_store = none }) }
        ∷ []))
    ≡ (
      waiting,
      ok (
          some (
            run_failed (codes "p") (external (codes "sync worker config: job_store is required")))),
    )
unfolding run_built validate_run_once_dependencies validate
no_store-refused = refl

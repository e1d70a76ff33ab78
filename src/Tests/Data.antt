-- ===== src/Tests/Data.antt =====
-- Small stores of internal/store.go, as the stores' own operations leave them.
use deltaflow.Prelude.{
  Str, false, Option, none, some, List, [], ◌∷◌, codes, itoa, lookup, insert, has, str_eq,
}
use deltaflow.Model.{SyncJob, JobOrigin, JobState, Time}
use deltaflow.Ids.{candidate, next_free}
use deltaflow.Jobs.State.{JobStore, new_job_store}
use deltaflow.Jobs.Create.{create, create_locked, create_guard, create_id, map_delta}
use deltaflow.Jobs.Calls.{creates, Event, perform, run}
use deltaflow.Jobs.Invariant.{Inv, new_job_store-Inv}
use deltaflow.Jobs.Histories.{run-Inv}

-- A job of the sync `contacts`, as a caller gives it to `Create`.
abbrev pub asked : JobOrigin → Option Str → SyncJob
asked origin delta_id = record {
  id = [];
  sync_id = codes "contacts";
  delta_id = delta_id;
  origin = origin;
  projection_type = codes "Contact";
  projection_key = [];
  projection_key_hash = [];
  state = JobState.unset;
  attempt_count = 0;
  max_attempts = 0;
  last_error = none;
  last_error_code = none;
  available_at = 0;
  locked_by = none;
  locked_until = none;
  ghost_detected = false;
  synced_at = none;
  dead_at = none;
  created_at = 0;
  updated_at = 0;
}

-- The job as `Create` stores it.
abbrev pub stored : SyncJob → Str → Time → SyncJob
stored job id now = record job {
  id = id;
  state = JobState.pending;
  max_attempts = 5;
  available_at = now;
  created_at = now;
  updated_at = now;
}

abbrev pub outbox_asked : SyncJob
outbox_asked = asked JobOrigin.outbox (some (codes "delta-1"))

abbrev pub manual_asked : SyncJob
manual_asked = asked JobOrigin.manual none

abbrev pub creations : List Event
creations =
    record { call = creates outbox_asked; ctx = none; at = 10 }
    ∷ record { call = creates manual_asked; ctx = none; at = 20 }
    ∷ []

abbrev pub job_1 : SyncJob
job_1 = stored outbox_asked (codes "job-1") 10

abbrev pub job_2 : SyncJob
job_2 = stored manual_asked (codes "job-2") 20

abbrev pub two_jobs : JobStore
two_jobs = record {
  next_id = 2;
  jobs = (codes "job-1", job_1) ∷ (codes "job-2", job_2) ∷ [];
  job_by_delta = (codes "delta-1", codes "job-1") ∷ [];
  telemetry = [];
}

pub two_jobs-Inv : Inv two_jobs
unfolding run perform create create_locked create_guard create_id map_delta next_free candidate itoa
    has insert lookup str_eq
two_jobs-Inv = run-Inv new_job_store creations new_job_store-Inv

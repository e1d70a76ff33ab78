-- ===== src/Tests/Sqlite.antt =====
-- Runs of the job store, the delta store, the dispatch and the worker lock of pkg/connectors/sqlite.
use deltaflow.Prelude.{
  ◌+◌, ◌≤◌, pos, Str, true, if◌then◌else◌, ◌&&◌, ◌≡◌, refl, leb, none, some, List, [], ◌∷◌, codes,
  itoa, lookup, insert, has, str_eq, insert_by, sort_by, length, arith,
}
use deltaflow.Model.{Time, SyncJob, JobState, Error, ok, err, delta_already_mapped, error_text}
use deltaflow.Ids.{candidate, next_free}
use deltaflow.Dedup.{projection_key_hash}
use deltaflow.Jobs.State.{JobStore, new_job_store}
use deltaflow.Jobs.Create.{create_locked, create_guard, create_id, map_delta}
use deltaflow.Jobs.Create as MemoryCreate
use deltaflow.Jobs.Calls as Calls
use deltaflow.Jobs.Calls.{run, perform}
use deltaflow.Jobs.Queries as MemoryQueries
use deltaflow.Jobs.Invariant.{Inv, new_job_store-Inv}
use deltaflow.Jobs.Histories.{run-Inv}
use deltaflow.Connectors.Prepare.{prepare_job_for_create, prepared_job}
use deltaflow.Connectors.Violations.{
  contains, has_prefix, is_unique_violation, is_outbox_delta_mapped_violation,
}
use deltaflow.Sqlite.Sql.{Session, update_where, affected}
use deltaflow.Sqlite.Rows.{Json, JobRow, scan_sync_job}
use deltaflow.Sqlite.Claim as SqliteClaim
use deltaflow.Sqlite.Claim.{claim_rounds, claim_candidate, candidate_rows, row_before, claimed_row}
use deltaflow.Sqlite.Owned as Sqlite
use deltaflow.Sqlite.Create.{Constraints, create, insert_job, get, new_id, insert_violation, row_of}
use deltaflow.Sqlite.Leases as SqliteLeases
use deltaflow.Sqlite.Refinement.{IsQuiet, Represents}
use deltaflow.Sqlite.Histories.{Event, claims, syncs, sql_history, memory_history, histories_refine}
use deltaflow.Sqlite.LeaseQueries.{lease_queries_agree}
use deltaflow.Sqlite.Failures.{IsAtomic, IsHonest, claim_next-IsAtomic, updates-IsHonest}
use deltaflow.Sqlite.Created.{stored_job, create_roundtrip}
use deltaflow.Sqlite.Bounds.{claim_next_batch-bounded}
use deltaflow.Sqlite.WorkerLock.{acquire_worker_lock}
use deltaflow.Sqlite.WorkerLocks.{LockEvent, acquires, lock_row, lock_run, worker_lock_exclusive}
use deltaflow.Tests.Data.{outbox_asked, manual_asked}

abbrev pub quiet : Session
quiet = record { ctx = λ n. none; fault = λ n. none }

pub quiet-IsQuiet : IsQuiet quiet
quiet-IsQuiet = record { ctx = λ n. refl; fault = λ n. refl }

-- Every key is written as an empty object.
abbrev pub json : Json
json = record {
  codec = record { marshal = λ key. ok (codes "{}"); sha256_hex = λ text. codes "ab" };
  unmarshal_key = λ text. ok [];
  marshal_metadata = λ metadata. ok (codes "null");
  unmarshal_metadata = λ text. ok none;
}

abbrev contacts : Str
contacts = codes "contacts"

-- The job store after the creation of one job.
abbrev creation : List Calls.Event
creation = record { call = Calls.creates manual_asked; ctx = none; at = 20000 } ∷ []

abbrev job_1 : SyncJob
job_1 = record manual_asked {
  id = codes "job-1";
  state = JobState.pending;
  max_attempts = 5;
  available_at = 20000;
  created_at = 20000;
  updated_at = 20000;
}

abbrev one_job : JobStore
one_job = record {
  next_id = 1;
  jobs = (codes "job-1", job_1) ∷ [];
  job_by_delta = [];
  telemetry = [];
}

one_job-Inv : Inv one_job
unfolding run perform MemoryCreate.create create_locked create_guard create_id map_delta next_free
    candidate itoa has insert lookup str_eq
one_job-Inv = run-Inv new_job_store creation new_job_store-Inv

-- Its row.
abbrev pub row_1 : JobRow
row_1 = row_of job_1 (codes "job-1") (codes "{}")

one_row-Represents : Represents json (row_1 ∷ []) one_job
one_row-Represents = (refl, ([], refl, refl), tt)

-- A claim, and the end of the work.
abbrev requests : List Event
requests =
    record { request = claims contacts (codes "a") 100; io = quiet; at = 30500 }
    ∷ record { request = syncs (codes "job-1") (codes "a") true; io = quiet; at = 40500 }
    ∷ []

histories_refine_example :
    ((sql_history json (row_1 ∷ []) requests).1 ≡ (memory_history one_job requests).1)
    × Represents json (sql_history json (row_1 ∷ []) requests).0 (memory_history one_job requests).0
histories_refine_example =
    histories_refine json (row_1 ∷ []) one_job requests one_row-Represents one_job-Inv
      (quiet-IsQuiet, (quiet-IsQuiet, tt))

lease_queries_agree_example :
    (SqliteLeases.list_active_leases json quiet (row_1 ∷ []) contacts (pos 5) 30500
      ≡ MemoryQueries.list_active_leases none one_job contacts (pos 5) 30000)
    × (SqliteLeases.list_expired_processing_leases json quiet (row_1 ∷ []) contacts (pos 5) 30500
        ≡ MemoryQueries.list_expired_processing_leases none one_job contacts (pos 5) 30000)
    × (SqliteLeases.list_near_expiry_leases json quiet
          (row_1 ∷ [])
          contacts
          (pos 2000)
          (pos 5)
          30500
        ≡ MemoryQueries.list_near_expiry_leases none one_job contacts (pos 2000) (pos 5) 30000)
lease_queries_agree_example =
    lease_queries_agree json quiet quiet-IsQuiet (row_1 ∷ []) one_job one_row-Represents contacts
      (pos 5) 2 30500

-- The commit of a claim fails.
abbrev pub failing : Session
failing = record {
  ctx = λ n. none;
  fault = λ n. if leb 5 n then some (Error.external (codes "disk full")) else none;
}

claim_next-IsAtomic_example :
    IsAtomic
      (row_1 ∷ [])
      (SqliteClaim.claim_next json failing (row_1 ∷ []) contacts (codes "a") (pos 100000) 30000)
claim_next-IsAtomic_example =
    claim_next-IsAtomic json failing (row_1 ∷ []) contacts (codes "a") (pos 100000) 30000

updates-IsHonest_example :
    IsHonest failing
      (row_1 ∷ [])
      (Sqlite.renew_lease failing (row_1 ∷ []) (codes "job-1") (codes "a") (pos 1) 9)
    × IsHonest failing
        (row_1 ∷ [])
        (Sqlite.mark_synced failing (row_1 ∷ []) (codes "job-1") (codes "a") true 9)
    × IsHonest failing
        (row_1 ∷ [])
        (Sqlite.mark_retrying failing (row_1 ∷ []) (codes "job-1") (codes "a") none 8 9)
    × IsHonest failing
        (row_1 ∷ [])
        (Sqlite.requeue_claimed failing (row_1 ∷ []) (codes "job-1") (codes "a") none 8 9)
    × IsHonest failing
        (row_1 ∷ [])
        (Sqlite.mark_dead failing (row_1 ∷ []) (codes "job-1") (codes "a") none 9)
    × IsHonest failing
        (row_1 ∷ [])
        (Sqlite.force_release_expired_lease failing (row_1 ∷ []) (codes "job-1") (codes "r") 9)
    × IsHonest failing
        (row_1 ∷ [])
        (Sqlite.requeue_expired_lease failing (row_1 ∷ []) (codes "job-1") 8 (codes "r") 9)
updates-IsHonest_example =
    updates-IsHonest failing (row_1 ∷ []) (codes "job-1") (codes "a") (codes "r") true none (pos 1)
      8 9

-- The epoch, as a moment.
abbrev pub epoch_time : Time
epoch_time = 62135596800000000000

abbrev prepared_1 : SyncJob
prepared_1 = prepared_job 5 manual_asked (codes "ab") epoch_time

abbrev id_1 : Str
id_1 = codes "job-0-00ff"

-- The letters A to Z in lower case.
abbrev lower : Str → Str
lower [] = []
lower (c ∷ s) = (if leb 65 c && leb c 90 then c + 32 else c) ∷ lower s

abbrev constraints : Constraints
constraints = record {
  view = record { sql_state = λ e. none; code_field = λ e. none; to_lower = lower };
  primary_key =
      Error.external
        (codes "constraint failed: UNIQUE constraint failed: deltaflow_sync_jobs.id (1555)");
  outbox_delta_unique =
      Error.external
        (codes "constraint failed: UNIQUE constraint failed: deltaflow_sync_jobs.delta_id (2067)");
}

create_roundtrip_example :
    (create json constraints 5 quiet (row_1 ∷ []) manual_asked (ok (codes "00ff")) epoch_time
      ≡ (row_1 ∷ row_of prepared_1 id_1 (codes "{}") ∷ [], ok (stored_job prepared_1 id_1)))
    × (get json quiet 0 0
          (create json constraints 5 quiet
            (row_1 ∷ [])
            manual_asked
            (ok (codes "00ff"))
            epoch_time).0
          id_1
        ≡ ok (some (stored_job prepared_1 id_1)))
unfolding prepare_job_for_create projection_key_hash new_id itoa insert_violation str_eq
create_roundtrip_example =
    create_roundtrip json constraints quiet quiet-IsQuiet (row_1 ∷ []) manual_asked prepared_1 5
      (ok (codes "00ff")) epoch_time id_1 (codes "{}") 0 0 refl refl refl refl refl refl

abbrev prepared_2 : SyncJob
prepared_2 = prepared_job 5 outbox_asked (codes "ab") epoch_time

-- The outbox job of the delta is there.
abbrev mapped_row : JobRow
mapped_row = row_of prepared_2 (codes "job-0-0000") (codes "{}")

mapped_again :
    create json constraints 5 quiet (mapped_row ∷ []) outbox_asked (ok (codes "00ff")) epoch_time
    ≡ (mapped_row ∷ [], err delta_already_mapped)
unfolding prepare_job_for_create projection_key_hash new_id itoa str_eq create insert_violation
    insert_job is_outbox_delta_mapped_violation is_unique_violation contains has_prefix error_text
mapped_again = refl

-- The job as worker a has claimed it.
abbrev job_2 : SyncJob
job_2 = record job_1 {
  projection_key = [];
  state = JobState.processing;
  locked_by = some (codes "a");
  locked_until = some 130000;
  updated_at = 30000;
}

claim_next_batch-bounded_example : length (job_2 ∷ []) ≤ 1
unfolding SqliteClaim.claim_next_batch claim_rounds SqliteClaim.claim_next candidate_rows
    claim_candidate sort_by insert_by str_eq scan_sync_job update_where affected
claim_next_batch-bounded_example =
    claim_next_batch-bounded json quiet ((λ n. quiet), (λ n. 30000)) (λ n. quiet) (λ n. 30000)
      (row_1 ∷ []) contacts (codes "a") (pos 1) (pos 100000) (job_2 ∷ []) refl

abbrev lock_events : List LockEvent
lock_events =
    record { call = acquires true (pos 1000); worker_id = codes "b"; io = quiet; at = 500 } ∷ []

worker_lock_exclusive_example :
    (lock_run (acquire_worker_lock quiet true none (codes "a") (pos 9000) 0).0 lock_events
      ≡ some (lock_row (codes "a") (pos 9000) 0))
    × ((e : Error) × ((acquire_worker_lock quiet true
            (lock_run (acquire_worker_lock quiet true none (codes "a") (pos 9000) 0).0 lock_events)
            (codes "b")
            (pos 1000)
            3000).1
          ≡ some e))
unfolding acquire_worker_lock str_eq
worker_lock_exclusive_example =
    worker_lock_exclusive quiet true none (codes "a") (pos 9000) 0 lock_events quiet true
      (codes "b") (pos 1000) 3000 refl ((refl, omega arith), tt) (omega arith)

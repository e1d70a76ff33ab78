-- ===== src/Sqlite/Create.antt =====
-- pkg/connectors/sqlite/job_store.go: `Create`, `createOutboxFromDeltaTx` and `Get`, and `newID` of
-- ids.go. The random part of an identifier is a parameter.
use deltaflow.Prelude.{
  ℕ, ◌-◌, Str, Bool, false, if◌then◌else◌, not, ◌&&◌, Option, none, some, List, [], ◌∷◌, ◌++◌, itoa,
  leb, ltb, length, is_empty, select, str_eq, codes,
}
use deltaflow.Model.{
  Time, SyncJob, is_outbox, Error, job_id_provided, delta_already_mapped, Result, ok, err,
  nil_dereference, diverges, ◌>>=◌,
}
use deltaflow.Sqlite.Sql.{Session, micros_from_time, time_ptr_micros, bool_to_int}
use deltaflow.Sqlite.Rows.{Json, JobRow, scan_sync_job}
use deltaflow.Connectors.Prepare.{prepare_job_for_create}
use deltaflow.Connectors.Violations.{ErrorView, is_outbox_delta_mapped_violation}

-- Go's zero time is this many microseconds before the epoch.
abbrev epoch : ℕ
epoch = 62135596800000000

-- `%d` of `UnixMicro`
abbrev pub unix_micro : Time → Str
unix_micro t =
    if leb epoch (micros_from_time t)
    then itoa (micros_from_time t - epoch)
    else codes "-" ++ itoa (epoch - micros_from_time t)

-- `newID` with the hexadecimal text of its random bytes.
unfoldable pub new_id : Str → Time → Result Str → Result Str
new_id prefix now random =
    random >>= (λ hex. ok (prefix ++ codes "-" ++ unix_micro now ++ codes "-" ++ hex))

-- What the engine says of a row that breaks a constraint of the table, and what the code can see of
-- the engine's errors.
pub record Constraints : Type 0 where
  pub view : ErrorView
  pub primary_key : Error
  pub outbox_delta_unique : Error

abbrev is_some_text : Option Str → Option Str → Bool
is_some_text (some a) (some b) = str_eq a b
is_some_text _ _ = false

-- A row of an outbox job of the delta.
abbrev pub maps_delta : Option Str → JobRow → Bool
maps_delta delta_id row = is_outbox row.origin && is_some_text row.delta_id delta_id

abbrev pub has_id : Str → JobRow → Bool
has_id id row = str_eq row.id id

abbrev pub any_row : (JobRow → Bool) → List JobRow → Bool
any_row p rows = ltb 0 (length (select p rows))

-- The constraints that the row breaks: the primary key, and `deltaflow_sync_jobs_outbox_delta_unique`.
unfoldable pub insert_violation : Constraints → List JobRow → JobRow → Option Error
insert_violation c rows row =
    if any_row (has_id row.id) rows
    then some c.primary_key
    else if is_outbox row.origin && any_row (maps_delta row.delta_id) rows
    then some c.outbox_delta_unique
    else none

-- The row of a job.
abbrev pub row_of : SyncJob → Str → Str → JobRow
row_of job id key = record {
  id = id;
  sync_id = job.sync_id;
  delta_id = job.delta_id;
  origin = job.origin;
  projection_type = job.projection_type;
  projection_key = key;
  projection_key_hash = job.projection_key_hash;
  state = job.state;
  attempt_count = job.attempt_count;
  max_attempts = job.max_attempts;
  last_error = job.last_error;
  last_error_code = job.last_error_code;
  available_at_micros = micros_from_time job.available_at;
  locked_by = job.locked_by;
  locked_until_micros = time_ptr_micros job.locked_until;
  ghost_detected = bool_to_int job.ghost_detected;
  synced_at_micros = time_ptr_micros job.synced_at;
  dead_at_micros = time_ptr_micros job.dead_at;
  created_at_micros = micros_from_time job.created_at;
  updated_at_micros = micros_from_time job.updated_at;
}

-- The first row of a query by identifier, as `scanSyncJob` reads it.
abbrev pub scan_first : Json → List JobRow → Result (Option SyncJob)
scan_first json [] = ok none
scan_first json (row ∷ _) = scan_sync_job json row >>= (λ job. ok (some job))

-- `Get`. Its context is asked for the `at`-th time; its query is the `step`-th step.
unfoldable pub get : Json → Session → ℕ → ℕ → List JobRow → Str → Result (Option SyncJob)
unfolding scan_sync_job
get json io at step rows job_id = elim (io.ctx at) [
  | some e ↦ err e
  | none ↦ elim (io.fault step) [
    | some e ↦ err e
    | none ↦ scan_first json (select (has_id job_id) rows)
  ]
]

-- The error of a read-back that finds no row.
abbrev pub missing_read_back : Str → Error
missing_read_back id =
    Error.external (codes "sqlite create job read-back missing for id " ++ (34 ∷ id) ++ 34 ∷ [])

abbrev pub created_answer : Str → Result (Option SyncJob) → Result SyncJob
created_answer id found =
    found >>= (λ o. elim o [ none ↦ err (missing_read_back id) | some job ↦ ok job ])

-- The error of a failed insertion, as `Create` reports it.
abbrev pub insert_error : Constraints → Error → Error
insert_error c e = if is_outbox_delta_mapped_violation c.view e then delta_already_mapped else e

-- `Create` from the insertion on.
unfoldable pub insert_job :
    Json → Constraints → Session → List JobRow → JobRow → List JobRow × Result SyncJob
unfolding insert_violation get
insert_job json c io rows row = elim (io.fault 0) [
  | some e ↦ (rows, err (insert_error c e))
  | none ↦ elim (insert_violation c rows row) [
    | some e ↦ (rows, err (insert_error c e))
    | none ↦
        let rows' = rows ++ row ∷ [] in
        (rows', created_answer row.id (get json io 1 1 rows' row.id))
  ]
]

-- The normalized job with its identifier and the JSON text of its key.
abbrev pub create_row : Json → ℕ → SyncJob → Result Str → Time → Result JobRow
create_row json max_attempts job random now = do
  normalized ← prepare_job_for_create json.codec max_attempts job now
  id ← new_id (codes "job") normalized.created_at random
  key ← json.codec.marshal normalized.projection_key
  ok (row_of normalized id key)

-- `Create`
unfoldable pub create :
    Json
    → Constraints
    → ℕ
    → Session
    → List JobRow
    → SyncJob
    → Result Str
    → Time
    → List JobRow × Result SyncJob
unfolding insert_job new_id
create json c max_attempts io rows job random now = elim (io.ctx 0) [
  | some e ↦ (rows, err e)
  | none ↦
      if not (is_empty job.id)
      then (rows, err job_id_provided)
      else elim (create_row json max_attempts job random now) [
        | ok row ↦ insert_job json c io rows row
        | err e ↦ (rows, err e)
        | nil_dereference ↦ (rows, nil_dereference)
        | diverges ↦ (rows, diverges)
      ]
]

-- ===== src/Sqlite/Rows.antt =====
-- pkg/connectors/sqlite/job_store.go: the rows of `deltaflow_sync_jobs` and `scanSyncJob`. The JSON
-- encoding of keys and metadata is a parameter. The text of a state or an origin is its constant.
use deltaflow.Prelude.{ℕ, Str, Map, not, Option, ◌==◌, List, [], ◌∷◌}
use deltaflow.Model.{SyncJob, JobState, JobOrigin, ProjectionKey, Codec, Value, Result, ok, ◌>>=◌}
use deltaflow.Sqlite.Sql.{time_from_micros, time_of_null}

pub record Json : Type 0 where
  pub codec : Codec
  pub unmarshal_key : Str → Result ProjectionKey
  pub marshal_metadata : Option (Map Value) → Result Str
  pub unmarshal_metadata : Str → Result (Option (Map Value))

pub record JobRow : Type 0 where
  pub id : Str
  pub sync_id : Str
  pub delta_id : Option Str
  pub origin : JobOrigin
  pub projection_type : Str
  pub projection_key : Str
  pub projection_key_hash : Str
  pub state : JobState
  pub attempt_count : ℕ
  pub max_attempts : ℕ
  pub last_error : Option Str
  pub last_error_code : Option Str
  pub available_at_micros : ℕ
  pub locked_by : Option Str
  pub locked_until_micros : Option ℕ
  pub ghost_detected : ℕ
  pub synced_at_micros : Option ℕ
  pub dead_at_micros : Option ℕ
  pub created_at_micros : ℕ
  pub updated_at_micros : ℕ

-- The job of a row whose key decodes to a value.
abbrev pub job_of : JobRow → ProjectionKey → SyncJob
job_of row key = record {
  id = row.id;
  sync_id = row.sync_id;
  delta_id = row.delta_id;
  origin = row.origin;
  projection_type = row.projection_type;
  projection_key = key;
  projection_key_hash = row.projection_key_hash;
  state = row.state;
  attempt_count = row.attempt_count;
  max_attempts = row.max_attempts;
  last_error = row.last_error;
  last_error_code = row.last_error_code;
  available_at = time_from_micros row.available_at_micros;
  locked_by = row.locked_by;
  locked_until = time_of_null row.locked_until_micros;
  ghost_detected = not (row.ghost_detected == 0);
  synced_at = time_of_null row.synced_at_micros;
  dead_at = time_of_null row.dead_at_micros;
  created_at = time_from_micros row.created_at_micros;
  updated_at = time_from_micros row.updated_at_micros;
}

-- `scanSyncJob` of a row that is there
unfoldable pub scan_sync_job : Json → JobRow → Result SyncJob
scan_sync_job json row = json.unmarshal_key row.projection_key >>= (λ key. ok (job_of row key))

-- The loop of `collectJobs`
unfoldable pub scan_jobs : Json → List JobRow → Result (List SyncJob)
unfolding scan_sync_job
scan_jobs json [] = ok []
scan_jobs json (row ∷ rows) =
    scan_sync_job json row >>= (λ job. scan_jobs json rows >>= (λ jobs. ok (job ∷ jobs)))

-- ===== src/Model/Records.antt =====
-- pkg/deltaflow/delta.go and deltaflow.go: deltas, sync jobs, their states, and the projection
-- types. A time is the number of nanoseconds since Go's zero time, so `IsZero` is the test for 0
-- and `UTC` changes nothing. A state or an origin is one of the declared constants or the empty
-- string, `unset`. Counters are natural numbers.
use deltaflow.Prelude.{ℕ, Str, Map, Bool, true, false, Option, ◌==◌, ltb}
use deltaflow.Model.Errors.{Result}

abbrev pub Time : Type 0
Time = ℕ

abbrev pub is_zero : Time → Bool
is_zero t = t == 0

-- `t.After(u)`
abbrev pub after : Time → Time → Bool
after t u = ltb u t

-- A missing value is a nil `json.RawMessage`.
abbrev pub ProjectionKey : Type 0
ProjectionKey = Map (Option Str)

-- A value of the metadata map, as reflection sees it.
mutual
  pub data Value : Type 0 where
    null : Value
    scalar : Str → Value
    slice : Values → Value
    dict : Fields → Value

  pub data Values : Type 0 where
    nil : Values
    cons : Value → Values → Values

  pub data Fields : Type 0 where
    end : Fields
    field : Str → Value → Fields → Fields

pub data OriginOperationType : Type 0 where
  unset inserted updated deleted child_changed : OriginOperationType

pub data DeltaState : Type 0 where
  unset pending dispatched ignored : DeltaState

pub data JobOrigin : Type 0 where
  unset backfill replay manual outbox unknown : JobOrigin

pub data JobState : Type 0 where
  unset pending processing synced retrying dead : JobState

pub record Delta : Type 0 where
  pub id : Str
  pub sync_id : Str
  pub origin : OriginOperationType
  pub projection_type : Str
  pub projection_key : ProjectionKey
  pub projection_key_hash : Str
  pub dedup_window : Str
  pub dedup_key : Str
  pub state : DeltaState
  pub occurred_at : Time
  pub created_at : Time
  pub dispatched_at : Option Time
  pub metadata : Option (Map Value)

pub record SyncJob : Type 0 where
  pub id : Str
  pub sync_id : Str
  pub delta_id : Option Str
  pub origin : JobOrigin
  pub projection_type : Str
  pub projection_key : ProjectionKey
  pub projection_key_hash : Str
  pub state : JobState
  pub attempt_count : ℕ
  pub max_attempts : ℕ
  pub last_error : Option Str
  pub last_error_code : Option Str
  pub available_at : Time
  pub locked_by : Option Str
  pub locked_until : Option Time
  pub ghost_detected : Bool
  pub synced_at : Option Time
  pub dead_at : Option Time
  pub created_at : Time
  pub updated_at : Time

pub record ProjectionIdentity : Type 0 where
  pub type : Str
  pub key : ProjectionKey

pub record Projection : Type 0 where
  pub identity : ProjectionIdentity
  pub payload : Str
  pub media_type : Str
  pub checksum : Str

pub data OperationType : Type 0 where
  upsert delete : OperationType

pub record ProjectionOperation : Type 0 where
  pub type : OperationType
  pub identity : ProjectionIdentity
  pub projection : Option Projection

pub record EnqueueBatchResult : Type 0 where
  pub requested_count : ℕ
  pub inserted_count : ℕ
  pub duplicate_count : ℕ
  pub dedup_window : Str

-- `json.Marshal` of a projection key, and the hexadecimal SHA-256 digest of a text.
pub record Codec : Type 0 where
  pub marshal : ProjectionKey → Result Str
  pub sha256_hex : Str → Str

abbrev pub default_max_enqueue_batch_size : ℕ
default_max_enqueue_batch_size = 1000

abbrev pub default_max_attempts : ℕ
default_max_attempts = 5

-- `state == ""`
abbrev pub delta_state_or_pending : DeltaState → DeltaState
delta_state_or_pending DeltaState.unset = DeltaState.pending
delta_state_or_pending s = s

abbrev pub job_state_or_pending : JobState → JobState
job_state_or_pending JobState.unset = JobState.pending
job_state_or_pending s = s

abbrev pub is_pending : DeltaState → Bool
is_pending DeltaState.pending = true
is_pending _ = false

abbrev pub is_dispatched : DeltaState → Bool
is_dispatched DeltaState.dispatched = true
is_dispatched _ = false

abbrev pub is_outbox : JobOrigin → Bool
is_outbox outbox = true
is_outbox _ = false

abbrev pub is_processing : JobState → Bool
is_processing processing = true
is_processing _ = false

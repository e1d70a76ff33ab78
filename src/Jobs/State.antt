-- ===== src/Jobs/State.antt =====
-- internal/store.go: the fields of `JobMemoryStore`, the telemetry it reports, and the tests on one
-- job. The clock is an argument of each operation: what `s.now()` returns there. Log lines are left
-- out. pkg/deltaflow/lease_telemetry.go gives the results and transitions.
use deltaflow.Prelude.{
  ℕ, Str, Map, Bool, false, not, ◌&&◌, if◌then◌else◌, Option, none, some, List, [], ◌∷◌, str_eq,
}
use deltaflow.Model.{Time, after, SyncJob, JobState, pending, processing, retrying, is_processing}

pub data TelemetryResult : Type 0 where
  success error empty invalid_lock_for_result job_not_found_result lease_not_owned_result :
      TelemetryResult

pub data Ownership : Type 0 where
  owned rejected : Ownership

pub data Transition : Type 0 where
  renew_lease_transition mark_synced_transition mark_retrying_transition : Transition
  requeue_claimed_transition mark_dead_transition : Transition

-- A call of the store's `LeaseTelemetry`; the measured duration of a renewal is left out.
pub data Telemetry : Type 0 where
  observe_lease_claim : TelemetryResult → Telemetry
  observe_lease_renew : TelemetryResult → Telemetry
  observe_lease_ownership_check : Transition → Ownership → Telemetry
  observe_lease_reclaim : Telemetry

-- `telemetry` has the latest call first.
pub record JobStore : Type 0 where
  pub next_id : ℕ
  pub jobs : Map SyncJob
  pub job_by_delta : Map Str
  pub telemetry : List Telemetry

-- `NewJobMemoryStore`
abbrev pub new_job_store : JobStore
new_job_store = record { next_id = 0; jobs = []; job_by_delta = []; telemetry = [] }

abbrev pub observe : Telemetry → JobStore → JobStore
observe t s = record s { telemetry = t ∷ s.telemetry }

-- `LockedUntil != nil && LockedUntil.After(now)`
abbrev pub is_lease_live : Option Time → Time → Bool
is_lease_live none now = false
is_lease_live (some until) now = after until now

abbrev pub is_locked_by : Option Str → Str → Bool
is_locked_by none worker_id = false
is_locked_by (some owner) worker_id = str_eq owner worker_id

-- `jobLeaseOwned`
unfoldable pub job_lease_owned : SyncJob → Time → Str → Bool
job_lease_owned job now worker_id =
    is_processing job.state
    && is_locked_by job.locked_by worker_id
    && is_lease_live job.locked_until now

unfoldable pub claimable_state : JobState → SyncJob → Time → Bool
claimable_state pending job now = not (after job.available_at now)
claimable_state retrying job now = not (after job.available_at now)
claimable_state processing job now = not (is_lease_live job.locked_until now)
claimable_state _ job now = false

-- `claimableJob`
unfoldable pub claimable_job : SyncJob → Time → Str → Bool
unfolding claimable_state
claimable_job job now sync_id =
    if not (str_eq job.sync_id sync_id) then false else claimable_state job.state job now

-- `clearJobLock`
abbrev pub clear_job_lock : SyncJob → SyncJob
clear_job_lock job = record job { locked_by = none; locked_until = none }

-- A processing job whose lease has run out or is missing.
abbrev pub was_expired_processing : SyncJob → Time → Bool
was_expired_processing job now = is_processing job.state && not (is_lease_live job.locked_until now)

-- ===== src/Jobs/Create.antt =====
-- internal/store.go: `Create`, `createLocked` and `Get` of `JobMemoryStore`.
use deltaflow.Prelude.{
  ℕ, suc, Str, Map, if◌then◌else◌, not, Option, none, some, is_empty, has, insert, lookup, length,
  codes, ◌==◌,
}
use deltaflow.Model.{
  Time, SyncJob, Ctx, Error, outbox_job_needs_delta, delta_already_mapped, job_id_provided, Result,
  ok, err, diverges, is_outbox, is_zero, job_state_or_pending, default_max_attempts,
}
use deltaflow.Ids.{next_free}
use deltaflow.Jobs.State.{JobStore}

-- An outbox job needs a delta that has no job yet.
unfoldable pub create_guard : JobStore → SyncJob → Option Error
create_guard s job =
    if is_outbox job.origin
    then elim job.delta_id [
      | none ↦ some outbox_job_needs_delta
      | some delta_id ↦ if has delta_id s.job_by_delta then some delta_already_mapped else none
    ]
    else none

-- The number and the identifier of the new job. `none`: the loop's fuel ran out.
unfoldable pub create_id : JobStore → SyncJob → Option (ℕ × Str)
create_id s job =
    if is_empty job.id
    then next_free (suc (length s.jobs)) (codes "job-") s.next_id s.jobs
    else some (s.next_id, job.id)

-- The job with its defaults filled in.
abbrev pub create_normalized : SyncJob → Str → Time → SyncJob
create_normalized job id now = record job {
  id = id;
  state = job_state_or_pending job.state;
  max_attempts = if job.max_attempts == 0 then default_max_attempts else job.max_attempts;
  available_at = if is_zero job.available_at then now else job.available_at;
  created_at = if is_zero job.created_at then now else job.created_at;
  updated_at = now;
}

unfoldable pub map_delta : SyncJob → Str → Map Str → Map Str
map_delta job id m =
    if is_outbox job.origin
    then elim job.delta_id [ none ↦ m | some delta_id ↦ insert delta_id id m ]
    else m

abbrev pub create_store : JobStore → SyncJob → ℕ × Str → Time → JobStore
create_store s job (n, id) now = record s {
  next_id = n;
  jobs = insert id (create_normalized job id now) s.jobs;
  job_by_delta = map_delta job id s.job_by_delta;
}

-- `createLocked`
unfoldable pub create_locked : JobStore → SyncJob → Time → JobStore × Result SyncJob
unfolding create_guard create_id map_delta
create_locked s job now = elim (create_guard s job) [
  | some e ↦ (s, err e)
  | none ↦ elim (create_id s job) [
    | none ↦ (s, diverges)
    | some (n, id) ↦ (create_store s job (n, id) now, ok (create_normalized job id now))
  ]
]

-- `Create`
unfoldable pub create : Ctx → JobStore → SyncJob → Time → JobStore × Result SyncJob
unfolding create_locked
create (some e) s job now = (s, err e)
create none s job now =
    if not (is_empty job.id) then (s, err job_id_provided) else create_locked s job now

-- `Get`
unfoldable pub get : Ctx → JobStore → Str → Result (Option SyncJob)
get (some e) s job_id = err e
get none s job_id = ok (lookup job_id s.jobs)

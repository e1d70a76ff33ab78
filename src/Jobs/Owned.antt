-- ===== src/Jobs/Owned.antt =====
-- internal/store.go: the transitions that only the owner of a live lease may make: `RenewLease`,
-- `MarkSynced`, `MarkRetrying`, `RequeueClaimed`, `MarkDead`, all by way of `updateOwned`.
use deltaflow.Prelude.{
  ◌+◌, ℤ, Str, Bool, if◌then◌else◌, not, Option, none, some, lookup, insert, is_nonpos,
  add_duration,
}
use deltaflow.Model.{
  Time, SyncJob, synced, retrying, dead, Ctx, Error, invalid_lock_for, job_not_found,
  job_lease_not_owned, error_message,
}
use deltaflow.Jobs.State.{
  JobStore, observe, observe_lease_renew, observe_lease_ownership_check, TelemetryResult, success,
  error, invalid_lock_for_result, job_not_found_result, lease_not_owned_result, owned, rejected,
  Transition, renew_lease_transition, mark_synced_transition, mark_retrying_transition,
  requeue_claimed_transition, mark_dead_transition, job_lease_owned, clear_job_lock,
}

-- `updateOwned`; `fn` also receives the clock.
unfoldable pub update_owned :
    Ctx
    → JobStore
    → Str
    → Str
    → Transition
    → (SyncJob → Time → SyncJob)
    → Time
    → JobStore × Option Error
update_owned (some e) s job_id worker_id transition fn now = (s, some e)
update_owned none s job_id worker_id transition fn now = elim (lookup job_id s.jobs) [
  | none ↦ (s, some job_not_found)
  | some job ↦
      if not (job_lease_owned job now worker_id)
      then (observe (observe_lease_ownership_check transition rejected) s, some job_lease_not_owned)
      else (
        observe (observe_lease_ownership_check transition owned)
            (record s { jobs = insert job_id (record (fn job now) { updated_at = now }) s.jobs }),
        none,
      )
]

-- `leaseResult`; `errors.Is` looks through the wrapping of a failed renewal.
unfoldable pub lease_result : Option Error → TelemetryResult
lease_result none = success
lease_result (some job_not_found) = job_not_found_result
lease_result (some job_lease_not_owned) = lease_not_owned_result
lease_result (some invalid_lock_for) = invalid_lock_for_result
lease_result (some (Error.lease_renewal_failed e)) = lease_result (some e)
lease_result (some _) = error

-- What each transition writes, before `updateOwned` sets `UpdatedAt`.
abbrev pub to_renewed : ℤ → SyncJob → Time → SyncJob
to_renewed lock_for job now = record job { locked_until = some (add_duration now lock_for) }

abbrev pub to_synced : Bool → SyncJob → Time → SyncJob
to_synced ghost job now =
    clear_job_lock (record job { state = synced; ghost_detected = ghost; synced_at = some now })

abbrev pub to_retrying : Option Error → Time → SyncJob → Time → SyncJob
to_retrying e next_run_at job now = clear_job_lock (record job {
  state = retrying;
  attempt_count = job.attempt_count + 1;
  last_error = some (error_message e);
  available_at = next_run_at;
})

abbrev pub to_requeued : Option Error → Time → SyncJob → Time → SyncJob
to_requeued reason next_run_at job now = clear_job_lock (record job {
  state = retrying;
  last_error = some (error_message reason);
  available_at = next_run_at;
})

abbrev pub to_dead : Option Error → SyncJob → Time → SyncJob
to_dead e job now = clear_job_lock (record job {
  state = dead;
  attempt_count = job.attempt_count + 1;
  last_error = some (error_message e);
  dead_at = some now;
})

-- `RenewLease`
unfoldable pub renew_lease : Ctx → JobStore → Str → Str → ℤ → Time → JobStore × Option Error
unfolding update_owned lease_result
renew_lease (some e) s job_id worker_id lock_for now = (s, some e)
renew_lease none s job_id worker_id lock_for now =
    if is_nonpos lock_for
    then (observe (observe_lease_renew invalid_lock_for_result) s, some invalid_lock_for)
    else let (s', e) =
        update_owned none s job_id worker_id renew_lease_transition (to_renewed lock_for) now in
      (observe (observe_lease_renew (lease_result e)) s', e)

-- `MarkSynced`
unfoldable pub mark_synced : Ctx → JobStore → Str → Str → Bool → Time → JobStore × Option Error
unfolding update_owned
mark_synced ctx s job_id worker_id ghost now =
    update_owned ctx s job_id worker_id mark_synced_transition (to_synced ghost) now

-- `MarkRetrying`
unfoldable pub mark_retrying :
    Ctx → JobStore → Str → Str → Option Error → Time → Time → JobStore × Option Error
unfolding update_owned
mark_retrying ctx s job_id worker_id e next_run_at now =
    update_owned ctx s job_id worker_id mark_retrying_transition (to_retrying e next_run_at) now

-- `RequeueClaimed`
unfoldable pub requeue_claimed :
    Ctx → JobStore → Str → Str → Option Error → Time → Time → JobStore × Option Error
unfolding update_owned
requeue_claimed ctx s job_id worker_id reason next_run_at now =
    update_owned ctx s job_id worker_id requeue_claimed_transition (to_requeued reason next_run_at)
      now

-- `MarkDead`
unfoldable pub mark_dead :
    Ctx → JobStore → Str → Str → Option Error → Time → JobStore × Option Error
unfolding update_owned
mark_dead ctx s job_id worker_id e now =
    update_owned ctx s job_id worker_id mark_dead_transition (to_dead e) now

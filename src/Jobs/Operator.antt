-- ===== src/Jobs/Operator.antt =====
-- internal/store.go: what an operator may do to a lease that has expired: `ForceReleaseExpiredLease`
-- and `RequeueExpiredLease`.
use deltaflow.Prelude.{
  Str, if◌then◌else◌, not, ◌||◌, Option, none, some, lookup, insert, is_empty, trim_space, codes,
  ◌++◌,
}
use deltaflow.Model.{
  Time, SyncJob, retrying, is_processing, Ctx, Error, audit_reason_required, job_not_found,
  job_lease_not_expired,
}
use deltaflow.Jobs.State.{JobStore, is_lease_live, clear_job_lock}

-- The two actions share their guards; `fn` gets the trimmed reason.
unfoldable pub update_expired :
    Ctx → JobStore → Str → Str → (SyncJob → Str → SyncJob) → Time → JobStore × Option Error
update_expired (some e) s job_id audit_reason fn now = (s, some e)
update_expired none s job_id audit_reason fn now =
    if is_empty (trim_space audit_reason)
    then (s, some audit_reason_required)
    else elim (lookup job_id s.jobs) [
      | none ↦ (s, some job_not_found)
      | some job ↦
          if not (is_processing job.state) || is_lease_live job.locked_until now
          then (s, some job_lease_not_expired)
          else (
            record s {
              jobs =
                  insert job_id (record (fn job (trim_space audit_reason)) { updated_at = now })
                    s.jobs;
            },
            none,
          )
    ]

abbrev pub to_released : SyncJob → Str → SyncJob
to_released job reason =
    clear_job_lock (record job { last_error = some (codes "operator_force_release: " ++ reason) })

abbrev pub to_operator_requeued : Time → SyncJob → Str → SyncJob
to_operator_requeued next_run_at job reason = clear_job_lock (record job {
  state = retrying;
  available_at = next_run_at;
  last_error = some (codes "operator_requeue: " ++ reason);
})

-- `ForceReleaseExpiredLease`
unfoldable pub force_release_expired_lease :
    Ctx → JobStore → Str → Str → Time → JobStore × Option Error
unfolding update_expired
force_release_expired_lease ctx s job_id audit_reason now =
    update_expired ctx s job_id audit_reason to_released now

-- `RequeueExpiredLease`
unfoldable pub requeue_expired_lease :
    Ctx → JobStore → Str → Time → Str → Time → JobStore × Option Error
unfolding update_expired
requeue_expired_lease ctx s job_id next_run_at audit_reason now =
    update_expired ctx s job_id audit_reason (to_operator_requeued next_run_at) now

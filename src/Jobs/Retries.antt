-- ===== src/Jobs/Retries.antt =====
-- How a job waits that `MarkRetrying` of internal/store.go has put back.
use deltaflow.Prelude.{
  Str, true, false, ◌≡◌, refl, ◌<◌, Option, none, some, List, [], ◌∷◌, All, lookup, leb,
  str_eq_refl, arith, suc,
}
use deltaflow.Model.{Time, SyncJob, Error, retrying}
use deltaflow.Jobs.State.{JobStore, job_lease_owned, claimable_job}
use deltaflow.Jobs.Owned.{mark_retrying, to_retrying}
use deltaflow.Jobs.Calls.{Call, Event, perform, run, retries}
use deltaflow.Jobs.Edges.{
  touched, claim, renew, sync, retry, requeue, bury, release, requeue_expired,
}
use deltaflow.Jobs.Invariant.{Inv, SameIdentity}
use deltaflow.Jobs.Histories.{perform-Inv}
use deltaflow.Jobs.Leases.{IsFixed, run-untouched}
use deltaflow.Jobs.Outcomes.{transitions_answer, OwnedAnswer-ok}

waiting-IsFixed :
    (now : Time) (c : Call) (id : Str) (job : SyncJob)
    → job.state ≡ retrying
    → now < job.available_at
    → IsFixed now c id job
unfolding claimable_job job_lease_owned
waiting-IsFixed now c id job t early job' (claim w d b can e) = ground arith
waiting-IsFixed now c id job t early job' (renew w d b own e) = ground arith
waiting-IsFixed now c id job t early job' (sync w g b own e) = ground arith
waiting-IsFixed now c id job t early job' (retry w x n b own e) = ground arith
waiting-IsFixed now c id job t early job' (requeue w x n b own e) = ground arith
waiting-IsFixed now c id job t early job' (bury w x b own e) = ground arith
waiting-IsFixed now c id job t early job' (release r p over e) = ground arith
waiting-IsFixed now c id job t early job' (requeue_expired r n p over e) = ground arith

All-IsFixed :
    (id : Str) (job : SyncJob) (es : List Event)
    → job.state ≡ retrying
    → All (λ e. e.at < job.available_at) es
    → All (λ e. IsFixed e.at e.call id job) es
All-IsFixed id job [] t early = tt
All-IsFixed id job (e ∷ es) t early =
    (waiting-IsFixed e.at e.call id job t early.0, All-IsFixed id job es t early.1)

-- A job as a failed run leaves it: retrying, with one more attempt and no lock, and otherwise the same.
pub record LeftRetrying (job job' : SyncJob) (next : Time) : Type 0 where
  pub same : SameIdentity job job'
  pub state : job'.state ≡ retrying
  pub attempts : job'.attempt_count ≡ suc job.attempt_count
  pub available_at : job'.available_at ≡ next
  pub locked_by : job'.locked_by ≡ none
  pub locked_until : job'.locked_until ≡ none

-- Once `MarkRetrying` on a well-formed store has answered without an error, the worker held a live
-- lease on the job, and after every history of calls before the given time the job is still there,
-- retrying with one more attempt and without a holder or an expiry of a lease; it is claimable
-- from that time on and not before.
pub retry_waits :
    (s : JobStore) (id w : Str) (e : Option Error) (next now later : Time) (es : List Event)
    → Inv s
    → (mark_retrying none s id w e next now).1 ≡ none
    → All (λ e. e.at < next) es
    → (job : SyncJob) × (job' : SyncJob) × (lookup id s.jobs ≡ some job)
      × (job_lease_owned job now w ≡ true)
      × (lookup id (run (mark_retrying none s id w e next now).0 es).jobs ≡ some job')
      × LeftRetrying job job' next
      × (claimable_job job' later job.sync_id ≡ leb next later)
unfolding claimable_job
retry_waits s id w e next now later es v h early =
    let (job, mine, found, at) = OwnedAnswer-ok (transitions_answer s id w false e next now).1 h in
    let job' = touched (to_retrying e next job now) now in
    let own = str_eq_refl job.sync_id in
    (
      job,
      job',
      found,
      mine,
      run-untouched (mark_retrying none s id w e next now).0 es id job'
          (unfold perform in perform-Inv (retries id w e next) none now s v) at
          (All-IsFixed id job' es refl early),
      ground arith,
      rw own (ground arith),
    )

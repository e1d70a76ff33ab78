-- ===== src/Worker/Endings.antt =====
-- `processJob` of pkg/deltaflow/worker.go: what a run that answers no error has done to its job.
use deltaflow.Prelude.{
  ℤ, Str, Bool, true, false, ◌≡◌, refl, ◌<◌, ◌≤◌, Option, none, some, ◌+◌, leb, Bool-cases, inl,
  inr, arith,
}
use deltaflow.Model.{SyncJob, Ctx, Error, Projection}
use deltaflow.Jobs.State.{JobStore}
use deltaflow.Jobs.Owned.{
  mark_synced, mark_retrying, mark_dead, to_synced, to_retrying, to_dead, update_owned,
}
use deltaflow.Jobs.Outcomes.{transitions_answer}
use deltaflow.Worker.Config.{worker_backoff}
use deltaflow.Worker.Finish.{Finish, fail_or_retry, finish_synced, heartbeat}
use deltaflow.Worker.Process.{
  Plugins, Schedule, heartbeat_on, conclude, apply_and_conclude, process_projected, process_job,
  is_not_found, job_ctx, job_identity, upsert_operation, delete_operation,
}
use deltaflow.Worker.Renewals.{
  IsRenewed, IsHeldWrite, heartbeat-IsRenewed, heartbeat_on-IsRenewed, OwnedAnswer-IsHeldWrite,
}

-- What was accepted before a job is synced: the projection that the projector answered, or its
-- deletion if the projector found none.
pub data IsAccepted (x : Plugins) (job : SyncJob) : Bool → Type 0 where
  upserted :
      (before after : Ctx) (p : Projection)
      → x.project before (job_identity job) ≡ (p, none)
      → x.apply after (upsert_operation (job_identity job) p) ≡ none
      → IsAccepted x job false
  deleted :
      (before after : Ctx) (p : Projection) (e : Error)
      → x.project before (job_identity job) ≡ (p, some e)
      → is_not_found e ≡ true
      → x.apply after (delete_operation (job_identity job)) ≡ none
      → IsAccepted x job true

-- How a run ends that leads from one store to another.
pub data Ended (x : Plugins) (job : SyncJob) (w : Str) (lock_for : ℤ) (f : Finish) (s s' : JobStore)
    : Type 0 where
  ended_synced :
      (ghost : Bool)
      → IsHeldWrite s s' job.id w lock_for (to_synced ghost) f.store_now
      → IsAccepted x job ghost
      → Ended x job w lock_for f s s'
  ended_retrying :
      (e : Error)
      → job.attempt_count + 1 < job.max_attempts
      → IsHeldWrite s s' job.id w lock_for
          (to_retrying (some e) (f.worker_now + worker_backoff (job.attempt_count + 1)))
          f.store_now
      → Ended x job w lock_for f s s'
  ended_dead :
      (e : Error)
      → job.max_attempts ≤ job.attempt_count + 1
      → IsHeldWrite s s' job.id w lock_for (to_dead (some e)) f.store_now
      → Ended x job w lock_for f s s'

-- Where the call answers no error, the run has ended.
abbrev EndsWell : Plugins → SyncJob → Str → ℤ → Finish → JobStore → JobStore × Option Error → Type 0
EndsWell x job w lock_for f s r = r.1 ≡ none → Ended x job w lock_for f s r.0

module _ (x : Plugins) (s : JobStore) (job : SyncJob) (w : Str) (lock_for : ℤ) where
  abbrev IsReached : JobStore → Type 0
  IsReached s' = IsRenewed s job.id w lock_for s'

  buried-EndsWell :
      (s' : JobStore) (e : Error) (f : Finish) (ctx : Ctx)
      → IsReached s'
      → job.max_attempts ≤ job.attempt_count + 1
      → EndsWell x job w lock_for f s (mark_dead ctx s' job.id w (some e) f.store_now)
  buried-EndsWell s' e f (some c) r last h = unfold mark_dead update_owned in cc
  buried-EndsWell s' e f none r last h =
      let answer = (transitions_answer s' job.id w false (some e) f.store_now f.store_now).3 in
      ended_dead e last (OwnedAnswer-IsHeldWrite r answer h)

  retried-EndsWell :
      (s' : JobStore) (e : Error) (f : Finish) (ctx : Ctx)
      → IsReached s'
      → job.attempt_count + 1 < job.max_attempts
      → EndsWell x job w lock_for f s (
          mark_retrying ctx s' job.id w
            (some e)
            (f.worker_now + worker_backoff (job.attempt_count + 1))
            f.store_now)
  retried-EndsWell s' e f (some c) r more h = unfold mark_retrying update_owned in cc
  retried-EndsWell s' e f none r more h =
      let next = f.worker_now + worker_backoff (job.attempt_count + 1) in
      let answer = (transitions_answer s' job.id w false (some e) next f.store_now).1 in
      ended_retrying e more (OwnedAnswer-IsHeldWrite r answer h)

  synced-EndsWell :
      (s' : JobStore) (ghost : Bool) (f : Finish) (ctx : Ctx)
      → IsReached s'
      → IsAccepted x job ghost
      → EndsWell x job w lock_for f s (mark_synced ctx s' job.id w ghost f.store_now)
  synced-EndsWell s' ghost f (some c) r a h = unfold mark_synced update_owned in cc
  synced-EndsWell s' ghost f none r a h =
      let answer = (transitions_answer s' job.id w ghost none f.store_now f.store_now).0 in
      ended_synced ghost (OwnedAnswer-IsHeldWrite r answer h) a

  fail_or_retry-EndsWell :
      (s' : JobStore) (e : Error) (f : Finish)
      → IsReached s'
      → EndsWell x job w lock_for f s (fail_or_retry s' job w e f)
  unfolding fail_or_retry
  fail_or_retry-EndsWell s' e f r =
      elim (Bool-cases (leb job.max_attempts (job.attempt_count + 1))) [
        | inl last ↦ rw last (buried-EndsWell s' e f f.ctx r (ground arith))
        | inr more ↦ rw more (retried-EndsWell s' e f f.ctx r (ground arith))
      ]

  conclude-EndsWell :
      (b : JobStore × Option Error) (t : Schedule) (e : Option Error) (ghost : Bool)
      → IsReached b.0
      → (e ≡ none → IsAccepted x job ghost)
      → EndsWell x job w lock_for t.finish s (conclude b job w lock_for t e ghost)
  unfolding conclude finish_synced
  conclude-EndsWell (s', some beat) t e ghost r a = fail_or_retry-EndsWell s' beat t.finish r
  conclude-EndsWell (s', none) t (some e) ghost r a =
      fail_or_retry-EndsWell (heartbeat s' job.id w lock_for t.closing).0 e t.finish
        (heartbeat_on-IsRenewed s (s', none) job.id w lock_for t.closing r)
  conclude-EndsWell (s', none) t none ghost r a =
      synced-EndsWell (heartbeat s' job.id w lock_for t.closing).0 ghost t.finish t.finish.ctx
        (heartbeat_on-IsRenewed s (s', none) job.id w lock_for t.closing r) (a refl)

  process_projected-EndsWell :
      (b : JobStore × Option Error) (t : Schedule) (before : Ctx) (p : Projection × Option Error)
      → IsReached b.0
      → x.project before (job_identity job) ≡ p
      → EndsWell x job w lock_for t.finish s (process_projected x b job w lock_for t p)
  unfolding process_projected apply_and_conclude
  process_projected-EndsWell b t before (p, none) r h =
      let b' = heartbeat_on b job.id w lock_for t.applying in
      let op = upsert_operation (job_identity job) p in
      conclude-EndsWell b' t (x.apply (job_ctx t.ctx b'.1) op) false
        (heartbeat_on-IsRenewed s b job.id w lock_for t.applying r)
        (λ fine. upserted before (job_ctx t.ctx b'.1) p h fine)
  process_projected-EndsWell b t before (p, some e) r h =
      let b' = heartbeat_on b job.id w lock_for t.applying in
      let op = delete_operation (job_identity job) in
      elim (Bool-cases (is_not_found e)) [
        | inl gone ↦ rw gone (
            conclude-EndsWell b' t (x.apply (job_ctx t.ctx b'.1) op) true
              (heartbeat_on-IsRenewed s b job.id w lock_for t.applying r)
              (λ fine. deleted before (job_ctx t.ctx b'.1) p e h gone fine))
        | inr failed ↦ rw failed (conclude-EndsWell b t (some e) false r (λ fine. cc))
      ]

-- A run of a job that answers no error has only renewed the worker's lease, any number of times,
-- and then written the job as it stood there, on which the worker held a live lease, to one of
-- three ends: synced, and then the applier has accepted the projector's projection, or its
-- deletion if the projector found none, with the ghost flag telling which; retrying after the
-- backoff of the next attempt, and then that attempt is below the limit; or dead at the limit.
pub process_job-Ended :
    (x : Plugins) (s : JobStore) (w : Str) (lock_for : ℤ) (job : SyncJob) (t : Schedule)
    → (process_job x s w lock_for job t).1 ≡ none
    → Ended x job w lock_for t.finish s (process_job x s w lock_for job t).0
unfolding process_job
process_job-Ended x s w lock_for job t =
    let b = heartbeat s job.id w lock_for t.projecting in
    process_projected-EndsWell x s job w lock_for b t (job_ctx t.ctx b.1)
      (x.project (job_ctx t.ctx b.1) (job_identity job))
      (heartbeat-IsRenewed s job.id w lock_for t.projecting) refl

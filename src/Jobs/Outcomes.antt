-- ===== src/Jobs/Outcomes.antt =====
-- What the transitions of internal/store.go's `JobMemoryStore` answer and leave behind.
use deltaflow.Prelude.{
  Str, Map, Bool, true, false, ◌≡◌, refl, ◌∙◌, ap, ◌≤◌, inl, inr, Option, none, some, List, [], ◌∷◌,
  lookup, insert, lookup-insert, lookup-insert_self, str_eq, str_eq_iff, Bool-cases, Option-cases,
  arith, subst,
}
use deltaflow.Model.{Time, SyncJob, Ctx, Error, job_not_found, job_lease_not_owned, synced}
use deltaflow.Jobs.State.{JobStore, Transition, job_lease_owned}
use deltaflow.Jobs.Owned.{
  update_owned, mark_synced, mark_retrying, requeue_claimed, mark_dead, to_synced, to_retrying,
  to_requeued, to_dead,
}
use deltaflow.Jobs.Calls.{Call, creates, Event, perform, run, syncs}
use deltaflow.Jobs.Edges.{
  touched, Edge, claim, renew, sync, retry, requeue, bury, release, requeue_expired, Writes, done,
  write,
}
use deltaflow.Jobs.Invariant.{Inv, SameIdentity, Edge-SameIdentity}
use deltaflow.Jobs.Performs.{perform-Performs}
use deltaflow.Jobs.Histories.{perform-Inv}
use deltaflow.Jobs.Leases.{terminal_forever, create-keeps}

-- The three answers of a transition that only the holder of the lease may make.
pub data OwnedAnswer (s : JobStore) (id w : Str) (fn : SyncJob → Time → SyncJob) (now : Time)
    (r : JobStore × Option Error) : Type 0 where
  missing :
      lookup id s.jobs ≡ none → r.1 ≡ some job_not_found → r.0 ≡ s → OwnedAnswer s id w fn now r
  refused :
      (job : SyncJob)
      → lookup id s.jobs ≡ some job
      → job_lease_owned job now w ≡ false
      → r.1 ≡ some job_lease_not_owned
      → r.0.jobs ≡ s.jobs
      → OwnedAnswer s id w fn now r
  applied :
      (job : SyncJob)
      → lookup id s.jobs ≡ some job
      → job_lease_owned job now w ≡ true
      → r.1 ≡ none
      → r.0.jobs ≡ insert id (touched (fn job now) now) s.jobs
      → OwnedAnswer s id w fn now r

update_owned-OwnedAnswer :
    (s : JobStore) (id w : Str) (t : Transition) (fn : SyncJob → Time → SyncJob) (now : Time)
    → OwnedAnswer s id w fn now (update_owned none s id w t fn now)
unfolding update_owned
update_owned-OwnedAnswer s id w t fn now = elim (Option-cases (lookup id s.jobs)) [
  | inl gone ↦ rw (gone, update_owned) (missing gone refl refl)
  | inr (job, found) ↦ elim (Bool-cases (job_lease_owned job now w)) [
    | inl mine ↦ rw (found, mine, update_owned) (applied job found mine refl refl)
    | inr other ↦ rw (found, other, update_owned) (refused job found other refl refl)
  ]
]

-- With a context that has not ended, each transition is applied to a job whose live lease the worker
-- holds; it is refused for a job of another holder, which stays as it was, and for a missing job.
pub transitions_answer :
    (s : JobStore) (id w : Str) (ghost : Bool) (e : Option Error) (next now : Time)
    → OwnedAnswer s id w (to_synced ghost) now (mark_synced none s id w ghost now)
      × OwnedAnswer s id w (to_retrying e next) now (mark_retrying none s id w e next now)
      × OwnedAnswer s id w (to_requeued e next) now (requeue_claimed none s id w e next now)
      × OwnedAnswer s id w (to_dead e) now (mark_dead none s id w e now)
unfolding mark_synced mark_retrying requeue_claimed mark_dead
transitions_answer s id w ghost e next now = (
  update_owned-OwnedAnswer s id w _ (to_synced ghost) now,
  update_owned-OwnedAnswer s id w _ (to_retrying e next) now,
  update_owned-OwnedAnswer s id w _ (to_requeued e next) now,
  update_owned-OwnedAnswer s id w _ (to_dead e) now,
)

-- An answer without an error means that the write was made.
pub OwnedAnswer-ok :
    {s : JobStore} {id w : Str} {fn : SyncJob → Time → SyncJob} {now : Time}
    {r : JobStore × Option Error}
    → OwnedAnswer s id w fn now r
    → r.1 ≡ none
    → (job : SyncJob) × (job_lease_owned job now w ≡ true)
      × (lookup id s.jobs ≡ some job)
      × (lookup id r.0.jobs ≡ some (touched (fn job now) now))
OwnedAnswer-ok (missing gone e same) h = cc
OwnedAnswer-ok (refused job found other e same) h = cc
OwnedAnswer-ok {s} {id} {fn = fn} {now} (applied job found mine e jobs) h = (
  job,
  mine,
  found,
  ap (lookup id) jobs ∙ lookup-insert_self id (touched (fn job now) now) s.jobs,
)

-- A job as a worker's success leaves it: synced, with the ghost flag and no lock, and otherwise the same.
pub record LeftSynced (job job' : SyncJob) (ghost : Bool) (now : Time) : Type 0 where
  pub same : SameIdentity job job'
  pub attempts : job'.attempt_count ≡ job.attempt_count
  pub state : job'.state ≡ synced
  pub ghost_detected : job'.ghost_detected ≡ ghost
  pub locked_by : job'.locked_by ≡ none
  pub locked_until : job'.locked_until ≡ none
  pub synced_at : job'.synced_at ≡ some now

-- Once `MarkSynced` on a well-formed store has answered without an error, the worker held a live
-- lease on the job, and after every later history the job is synced at that time, with the ghost
-- flag of the call, without a holder or an expiry of a lease, and with its attempts and the rest
-- of its identity as they were.
pub synced_forever :
    (s : JobStore) (id w : Str) (ghost : Bool) (now : Time) (es : List Event)
    → Inv s
    → (mark_synced none s id w ghost now).1 ≡ none
    → (job : SyncJob) × (job' : SyncJob) × (lookup id s.jobs ≡ some job)
      × (job_lease_owned job now w ≡ true)
      × (lookup id (run (mark_synced none s id w ghost now).0 es).jobs ≡ some job')
      × LeftSynced job job' ghost now
synced_forever s id w ghost now es v h =
    let (job, mine, found, at) =
      OwnedAnswer-ok (transitions_answer s id w ghost none now now).0 h in
    (
      job,
      touched (to_synced ghost job now) now,
      found,
      mine,
      terminal_forever (mark_synced none s id w ghost now).0 es id _
          (unfold perform in perform-Inv (syncs id w ghost) none now s v) at (inl refl),
      ground arith,
    )

Edge-attempts :
    {now : Time} {c : Call} {id : Str} {job job' : SyncJob}
    → Edge now c id job job'
    → job.attempt_count ≤ job'.attempt_count
Edge-attempts (claim w d b t e) = ground arith
Edge-attempts (renew w d b t e) = ground arith
Edge-attempts (sync w g b t e) = ground arith
Edge-attempts (retry w x n b t e) = ground arith
Edge-attempts (requeue w x n b t e) = ground arith
Edge-attempts (bury w x b t e) = ground arith
Edge-attempts (release r p t e) = ground arith
Edge-attempts (requeue_expired r n p t e) = ground arith

-- A later version of a job: the same job, with no fewer attempts.
pub record IsLater (job job' : SyncJob) : Type 0 where
  pub same : SameIdentity job job'
  pub attempts : job.attempt_count ≤ job'.attempt_count

IsLater-refl : (job : SyncJob) → IsLater job job
IsLater-refl job = ground arith

IsLater-trans : {a b c : SyncJob} → IsLater a b → IsLater b c → IsLater a c
IsLater-trans l k = ground arith

Writes-persist :
    {now : Time} {c : Call} {m n : Map SyncJob} (id : Str) (job : SyncJob)
    → Writes now c m n
    → lookup id m ≡ some job
    → (job' : SyncJob) × (lookup id n ≡ some job') × IsLater job job'
Writes-persist id job done h = (job, h, IsLater-refl job)
Writes-persist {m = m} id job (write i j j' found edge rest) h = elim (Bool-cases (str_eq i id)) [
  | inl t ↦
      let same : i ≡ id = (str_eq_iff i id).0 t in
      let there : lookup id m ≡ some j = rw (← same) found in
      let eq : j ≡ job = ground arith in
      let (k, at, later) = Writes-persist id j' rest (rw (lookup-insert i id j' m, t) refl) in
      (
        k,
        at,
        subst (λ x. IsLater x k) eq
            (IsLater-trans (record { same = Edge-SameIdentity edge; attempts = Edge-attempts edge })
              later),
      )
  | inr t ↦ Writes-persist id job rest (rw (lookup-insert i id j' m, t) h)
]

perform-persist :
    (c : Call) (ctx : Ctx) (now : Time) (s : JobStore) (id : Str) (job : SyncJob)
    → Inv s
    → lookup id s.jobs ≡ some job
    → (job' : SyncJob) × (lookup id (perform c ctx now s).jobs ≡ some job') × IsLater job job'
perform-persist (creates new) ctx now s id job v h =
    (job, unfold perform in create-keeps ctx s new now id job h, IsLater-refl job)
perform-persist c ctx now s id job v h =
    Writes-persist id job (perform-Performs c ctx now s (λ g. g) v.unique).writes h

-- No history from a well-formed store loses a job: it stays under its identifier, with its sync, delta, origin, projection
-- and limits as they were created, and its count of attempts never falls.
pub job_persists :
    (s : JobStore) (es : List Event) (id : Str) (job : SyncJob)
    → Inv s
    → lookup id s.jobs ≡ some job
    → (job' : SyncJob) × (lookup id (run s es).jobs ≡ some job') × IsLater job job'
unfolding run
job_persists s [] id job v h = (job, h, IsLater-refl job)
job_persists s (e ∷ es) id job v h =
    let (k, at, later) = perform-persist e.call e.ctx e.at s id job v h in
    let (l, at', later') =
      job_persists (perform e.call e.ctx e.at s) es id k (perform-Inv e.call e.ctx e.at s v) at in
    (l, at', IsLater-trans later later')

-- ===== src/Jobs/Leases.antt =====
-- Who may change a job of internal/store.go's `JobMemoryStore`.
use deltaflow.Prelude.{
  Str, Map, true, ◌≡◌, refl, ◌<◌, ◌⊎◌, inl, inr, none, some, List, [], ◌∷◌, All, lookup, has,
  lookup-insert, has_of_lookup, str_eq, str_eq_iff, Bool-cases, arith, subst, is_empty,
}
use deltaflow.Model.{Time, SyncJob, Ctx, processing, synced, dead, Result}
use deltaflow.Jobs.State.{JobStore, job_lease_owned, claimable_job}
use deltaflow.Jobs.Create.{create, create_normalized}
use deltaflow.Jobs.Calls.{
  Call, creates, renews, syncs, retries, requeues, buries, perform, Event, run,
}
use deltaflow.Jobs.Edges.{
  Edge, claim, renew, sync, retry, requeue, bury, release, requeue_expired, Writes, done, write,
}
use deltaflow.Jobs.Invariant.{Inv}
use deltaflow.Jobs.Performs.{perform-Performs}
use deltaflow.Jobs.Creation.{Created, refused, created, create-Created}
use deltaflow.Jobs.Histories.{perform-Inv}

-- No edge of the call leads away from the job.
abbrev pub IsFixed : Time → Call → Str → SyncJob → Type 0
IsFixed now c id job = (job' : SyncJob) → ¬ Edge now c id job job'

Writes-untouched :
    {now : Time} {c : Call} {m n : Map SyncJob} (id : Str) (job : SyncJob)
    → Writes now c m n
    → lookup id m ≡ some job
    → IsFixed now c id job
    → lookup id n ≡ some job
Writes-untouched id job done h fixed = h
Writes-untouched {now} {c} {m = m} id job (write i j j' found edge rest) h fixed =
    elim (Bool-cases (str_eq i id)) [
      | inl t ↦
          let same : i ≡ id = (str_eq_iff i id).0 t in
          let there : lookup id m ≡ some j = rw (← same) found in
          let eq : j ≡ job = ground arith in
          absurd (
            fixed j'
              (subst (λ k. Edge now c id k j') eq (subst (λ k. Edge now c k j j') same edge)))
      | inr t ↦ Writes-untouched id job rest (rw (lookup-insert i id j' m, t) h) fixed
    ]

Created-keeps :
    {s : JobStore} {new : SyncJob} {now : Time} {r : JobStore × Result SyncJob} (id : Str)
    (job : SyncJob)
    → Created s new now r
    → lookup id s.jobs ≡ some job
    → lookup id r.0.jobs ≡ some job
Created-keeps id job (refused e g) h = h
Created-keeps {s} {new} {now} id job (created n i g later named fresh) h =
    elim (Bool-cases (str_eq i id)) [
      | inl t ↦
          let same : i ≡ id = (str_eq_iff i id).0 t in
          let used : has i s.jobs ≡ true = rw same (has_of_lookup id job s.jobs h) in cc
      | inr t ↦ rw (lookup-insert i id (create_normalized new i now) s.jobs, t) h
    ]

pub create-keeps :
    (ctx : Ctx) (s : JobStore) (new : SyncJob) (now : Time) (id : Str) (job : SyncJob)
    → lookup id s.jobs ≡ some job
    → lookup id (create ctx s new now).0.jobs ≡ some job
unfolding create
create-keeps (some e) s new now id job h = h
create-keeps none s new now id job h = elim (Bool-cases (is_empty new.id)) [
  | inl blank ↦ Created-keeps id job (create-Created s new now blank) h
  | inr given ↦ rw given h
]

-- A call leaves a job alone from which it has no edge.
pub perform-untouched :
    (c : Call) (ctx : Ctx) (now : Time) (s : JobStore) (id : Str) (job : SyncJob)
    → Inv s
    → lookup id s.jobs ≡ some job
    → IsFixed now c id job
    → lookup id (perform c ctx now s).jobs ≡ some job
perform-untouched (creates new) ctx now s id job v h fixed =
    unfold perform in create-keeps ctx s new now id job h
perform-untouched c ctx now s id job v h fixed =
    Writes-untouched id job (perform-Performs c ctx now s (λ g. g) v.unique).writes h fixed

pub run-untouched :
    (s : JobStore) (es : List Event) (id : Str) (job : SyncJob)
    → Inv s
    → lookup id s.jobs ≡ some job
    → All (λ e. IsFixed e.at e.call id job) es
    → lookup id (run s es).jobs ≡ some job
unfolding run
run-untouched s [] id job v h fixed = h
run-untouched s (e ∷ es) id job v h fixed =
    run-untouched (perform e.call e.ctx e.at s) es id job (perform-Inv e.call e.ctx e.at s v)
      (perform-untouched e.call e.ctx e.at s id job v h fixed.0) fixed.1

abbrev pub IsTerminal : SyncJob → Type 0
IsTerminal job = (job.state ≡ synced) ⊎ (job.state ≡ dead)

terminal-IsFixed :
    (now : Time) (c : Call) (id : Str) (job : SyncJob) → IsTerminal job → IsFixed now c id job
unfolding claimable_job job_lease_owned
terminal-IsFixed now c id job t job' (claim w d b can e) = ground arith
terminal-IsFixed now c id job t job' (renew w d b own e) = ground arith
terminal-IsFixed now c id job t job' (sync w g b own e) = ground arith
terminal-IsFixed now c id job t job' (retry w x n b own e) = ground arith
terminal-IsFixed now c id job t job' (requeue w x n b own e) = ground arith
terminal-IsFixed now c id job t job' (bury w x b own e) = ground arith
terminal-IsFixed now c id job t job' (release r p over e) = ground arith
terminal-IsFixed now c id job t job' (requeue_expired r n p over e) = ground arith

-- In a well-formed store, a job that is synced or dead is never changed again, by any history of calls.
pub terminal_forever :
    (s : JobStore) (es : List Event) (id : Str) (job : SyncJob)
    → Inv s
    → lookup id s.jobs ≡ some job
    → IsTerminal job
    → lookup id (run s es).jobs ≡ some job
terminal_forever s es id job v h t = run-untouched s es id job v h (all_fixed es)
  where
    all_fixed : (l : List Event) → All (λ e. IsFixed e.at e.call id job) l
    all_fixed [] = tt
    all_fixed (e ∷ l) = (terminal-IsFixed e.at e.call id job t, all_fixed l)

-- The job is leased to a worker up to a time.
pub record HasLease (w : Str) (until : Time) (job : SyncJob) : Type 0 where
  pub state : job.state ≡ processing
  pub by : job.locked_by ≡ some w
  pub until_time : job.locked_until ≡ some until

-- The transitions that the holder of the lease makes itself.
abbrev pub IsOwnCall : Str → Str → Call → Type 0
IsOwnCall w id (renews i w' lock_for) = (i ≡ id) × (w' ≡ w)
IsOwnCall w id (syncs i w' ghost) = (i ≡ id) × (w' ≡ w)
IsOwnCall w id (retries i w' e next) = (i ≡ id) × (w' ≡ w)
IsOwnCall w id (requeues i w' e next) = (i ≡ id) × (w' ≡ w)
IsOwnCall w id (buries i w' e) = (i ≡ id) × (w' ≡ w)
IsOwnCall w id _ = ⊥

owned_holder :
    (job : SyncJob) (now until : Time) (w w' : Str)
    → HasLease w until job
    → job_lease_owned job now w' ≡ true
    → w' ≡ w
unfolding job_lease_owned
owned_holder job now until w w' l h = ground (arith, str_eq_iff w w')

-- While the lease runs, only a transition of its holder has an edge.
lease-Edge :
    (now until : Time) (w : Str) (c : Call) (id : Str) (job job' : SyncJob)
    → HasLease w until job
    → now < until
    → Edge now c id job job'
    → IsOwnCall w id c
unfolding claimable_job
lease-Edge now until w c id job job' l t (claim w' d b can e) = absurd (ground arith)
lease-Edge now until w c id job job' l t (renew w' d b own e) =
    rw b (refl, owned_holder job now until w w' l own)
lease-Edge now until w c id job job' l t (sync w' g b own e) =
    rw b (refl, owned_holder job now until w w' l own)
lease-Edge now until w c id job job' l t (retry w' x n b own e) =
    rw b (refl, owned_holder job now until w w' l own)
lease-Edge now until w c id job job' l t (requeue w' x n b own e) =
    rw b (refl, owned_holder job now until w w' l own)
lease-Edge now until w c id job job' l t (bury w' x b own e) =
    rw b (refl, owned_holder job now until w w' l own)
lease-Edge now until w c id job job' l t (release r p over e) = absurd (ground arith)
lease-Edge now until w c id job job' l t (requeue_expired r n p over e) = absurd (ground arith)

-- A call before the lease ends that is not the holder's own transition of the job.
abbrev pub IsForeign : Str → Time → Str → Event → Type 0
IsForeign w until id e = (e.at < until) × ¬ IsOwnCall w id e.call

-- In a well-formed store, a job that is leased to a worker is changed by no history of calls before
-- the lease ends that holds no transition of the job by that worker.
pub lease_exclusive :
    (s : JobStore) (es : List Event) (id w : Str) (until : Time) (job : SyncJob)
    → Inv s
    → lookup id s.jobs ≡ some job
    → HasLease w until job
    → All (IsForeign w until id) es
    → lookup id (run s es).jobs ≡ some job
lease_exclusive s es id w until job v h l foreign =
    run-untouched s es id job v h (all_fixed es foreign)
  where
    all_fixed :
        (k : List Event) → All (IsForeign w until id) k → All (λ e. IsFixed e.at e.call id job) k
    all_fixed [] f = tt
    all_fixed (e ∷ k) f = (
      λ job' edge. f.0.1 (lease-Edge e.at until w e.call id job job' l f.0.0 edge),
      all_fixed k f.1,
    )

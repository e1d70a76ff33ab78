-- ===== src/Jobs/Invariant.antt =====
-- What holds of internal/store.go's `JobMemoryStore` between two calls, and the writes to a job: the map is keyed by the jobs' identifiers, the numbers ahead are free, and `jobByDelta` is
-- the index of the outbox jobs by their deltas.
use deltaflow.Prelude.{
  ℕ, Str, Map, false, ◌≡◌, refl, sym, ◌∙◌, ◌<◌, some, List, lookup, insert, has, Keys, insert-Keys,
  lookup-insert, has-insert_old, All, All-insert, All-lookup, arith, codes, str_eq, str_eq_iff,
  Bool-cases, inl, inr,
}
use deltaflow.Model.{Time, SyncJob, outbox}
use deltaflow.Ids.{candidate}
use deltaflow.Jobs.State.{JobStore, Telemetry, new_job_store}
use deltaflow.Jobs.Calls.{Call}
use deltaflow.Jobs.Edges.{
  Edge, claim, renew, sync, retry, requeue, bury, release, requeue_expired, Writes, done, write,
}

-- What no transition of a job changes.
pub record SameIdentity (job job' : SyncJob) : Type 0 where
  pub id : job'.id ≡ job.id
  pub sync_id : job'.sync_id ≡ job.sync_id
  pub delta_id : job'.delta_id ≡ job.delta_id
  pub origin : job'.origin ≡ job.origin
  pub projection_type : job'.projection_type ≡ job.projection_type
  pub projection_key : job'.projection_key ≡ job.projection_key
  pub max_attempts : job'.max_attempts ≡ job.max_attempts
  pub created_at : job'.created_at ≡ job.created_at

pub Edge-SameIdentity :
    {now : Time} {c : Call} {id : Str} {job job' : SyncJob}
    → Edge now c id job job'
    → SameIdentity job job'
Edge-SameIdentity (claim w d b t e) = ground arith
Edge-SameIdentity (renew w d b t e) = ground arith
Edge-SameIdentity (sync w g b t e) = ground arith
Edge-SameIdentity (retry w x n b t e) = ground arith
Edge-SameIdentity (requeue w x n b t e) = ground arith
Edge-SameIdentity (bury w x b t e) = ground arith
Edge-SameIdentity (release r p t e) = ground arith
Edge-SameIdentity (requeue_expired r n p t e) = ground arith

abbrev pub IsOutboxJobOf : Str → SyncJob → Type 0
IsOutboxJobOf d job = (job.origin ≡ outbox) × (job.delta_id ≡ some d)

pub record Inv (s : JobStore) : Type 0 where
  pub unique : Keys s.jobs
  pub named : All (λ e. e.1.id ≡ e.0) s.jobs
  pub free : (k : ℕ) → s.next_id < k → has (candidate (codes "job-") k) s.jobs ≡ false
  pub mapped :
      (d id : Str)
      → lookup d s.job_by_delta ≡ some id
      → (job : SyncJob) × (lookup id s.jobs ≡ some job) × IsOutboxJobOf d job
  pub covered :
      (id : Str) (job : SyncJob)
      → lookup id s.jobs ≡ some job
      → job.origin ≡ outbox
      → (d : Str) × (job.delta_id ≡ some d) × (lookup d s.job_by_delta ≡ some id)

pub new_job_store-Inv : Inv new_job_store
unfolding lookup has
new_job_store-Inv = record {
  unique = tt;
  named = tt;
  free = λ k h. refl;
  mapped = λ d id h. cc;
  covered = λ id job h o. cc;
}

module _ (s : JobStore) (v : Inv s) (id : Str) (job job' : SyncJob)
    (found : lookup id s.jobs ≡ some job) (same : SameIdentity job job') where
  write_mapped :
      (d i : Str)
      → lookup d s.job_by_delta ≡ some i
      → (k : SyncJob) × (lookup i (insert id job' s.jobs) ≡ some k) × IsOutboxJobOf d k
  write_mapped d i h =
      let (k, at, (o, of)) = v.mapped d i h in
      elim (Bool-cases (str_eq id i)) [
        | inl t ↦
            let here : id ≡ i = (str_eq_iff id i).0 t in
            let old : lookup i s.jobs ≡ some job = rw (← here) found in
            let eq : job ≡ k = ground arith in
            (
              job',
              rw (lookup-insert id i job' s.jobs, t),
              (same.origin ∙ rw eq o, same.delta_id ∙ rw eq of),
            )
        | inr t ↦ (k, rw (lookup-insert id i job' s.jobs, t) at, (o, of))
      ]

  write_covered :
      (i : Str) (k : SyncJob)
      → lookup i (insert id job' s.jobs) ≡ some k
      → k.origin ≡ outbox
      → (d : Str) × (k.delta_id ≡ some d) × (lookup d s.job_by_delta ≡ some i)
  write_covered i k h o = elim (Bool-cases (str_eq id i)) [
    | inl t ↦
        let here : id ≡ i = (str_eq_iff id i).0 t in
        let eq : some job' ≡ some k = rw (lookup-insert id i job' s.jobs, t) at h in
        let eq' : job' ≡ k = ground arith in
        let (d, of, at) = v.covered id job found (sym same.origin ∙ rw eq' o) in
        (d, rw (← eq') (same.delta_id ∙ of), rw (← here) at)
    | inr t ↦ v.covered i k (rw (lookup-insert id i job' s.jobs, t) at h) o
  ]

  -- A write to a job of the map that keeps the job's identity keeps the invariant.
  pub write-Inv : Inv (record s { jobs = insert id job' s.jobs })
  write-Inv = record {
    unique = insert-Keys id job' s.jobs v.unique;
    named =
        All-insert (λ e. e.1.id ≡ e.0) id job' s.jobs v.named
          (same.id ∙ All-lookup (λ e. e.1.id ≡ e.0) id job s.jobs v.named found);
    free = λ k h. has-insert_old id _ job' job s.jobs found ∙ v.free k h;
    mapped = write_mapped;
    covered = write_covered;
  }

pub Writes-Inv :
    {now : Time} {c : Call} (next : ℕ) (by_delta : Map Str) (t : List Telemetry) {m n : Map SyncJob}
    → Writes now c m n
    → Inv (record { next_id = next; jobs = m; job_by_delta = by_delta; telemetry = t })
    → Inv (record { next_id = next; jobs = n; job_by_delta = by_delta; telemetry = t })
Writes-Inv next by_delta t done v = v
Writes-Inv next by_delta t (write id job job' found edge rest) v =
    Writes-Inv next by_delta t rest (write-Inv _ v id job job' found (Edge-SameIdentity edge))

-- ===== src/Jobs/Creation.antt =====
-- About `Create` of internal/store.go's `JobMemoryStore`, on every branch.
use deltaflow.Prelude.{
  ℕ, suc, Str, Map, true, false, ◌≡◌, ◌≢◌, refl, ◌<◌, none, some, insert, has, length, is_empty,
  arith, codes, Bool-cases, Option-cases, inl, inr,
}
use deltaflow.Model.{
  Time, SyncJob, JobOrigin, outbox, Ctx, Error, Result, ok, err, is_outbox, outbox_job_needs_delta,
  delta_already_mapped,
}
use deltaflow.Ids.{candidate, next_free_total, next_free_fresh}
use deltaflow.Jobs.State.{JobStore}
use deltaflow.Jobs.Create.{
  create_guard, create_id, create_normalized, create_store, map_delta, create_locked, create,
}
use deltaflow.Jobs.Invariant.{Inv}
use deltaflow.Jobs.Insertion.{raise_next-Inv, insert_plain-Inv, insert_outbox-Inv}

-- The numbering loop ends, since its fuel exceeds the number of jobs, at a number not in use.
pub create_id-fresh :
    (s : JobStore) (job : SyncJob)
    → is_empty job.id ≡ true
    → (n : ℕ) × (id : Str) × (create_id s job ≡ some (n, id))
      × (s.next_id < n)
      × (id ≡ candidate (codes "job-") n)
      × (has id s.jobs ≡ false)
unfolding create_id
create_id-fresh s job blank =
    let fuel : ℕ = suc (length s.jobs) in
    let ((n, id), found) = next_free_total fuel (codes "job-") s.next_id s.jobs (omega arith) in
    let (later, named, fresh) =
      next_free_fresh fuel (codes "job-") s.next_id s.jobs {n = n} {c = id} found in
    (n, id, rw blank found, later, named, fresh)

-- What `Create` answers, on every branch.
pub data Created (s : JobStore) (job : SyncJob) (now : Time)
    : JobStore × Result SyncJob → Type 0 where
  refused : (e : Error) → create_guard s job ≡ some e → Created s job now (s, err e)
  created :
      (n : ℕ) (id : Str)
      → create_guard s job ≡ none
      → s.next_id < n
      → id ≡ candidate (codes "job-") n
      → has id s.jobs ≡ false
      → Created s job now (create_store s job (n, id) now, ok (create_normalized job id now))

-- With a context that has not ended and a job without an identifier, `Create` always answers: it
-- refuses what the guard refuses and changes nothing, or it stores the job with its defaults under a
-- later number that was not in use.
pub create-Created :
    (s : JobStore) (job : SyncJob) (now : Time)
    → is_empty job.id ≡ true
    → Created s job now (create none s job now)
unfolding create create_locked
create-Created s job now blank = elim (Option-cases (create_guard s job)) [
  | inr (e, g) ↦ rw (blank, create_locked, g) (refused e g)
  | inl g ↦
      let (n, id, found, later, named, fresh) = create_id-fresh s job blank in
      rw (blank, create_locked, g, found) (created n id g later named fresh)
]

-- The guard passes an outbox job only with a delta that has no job.
guard_outbox :
    (s : JobStore) (job : SyncJob)
    → create_guard s job ≡ none
    → is_outbox job.origin ≡ true
    → (d : Str) × (job.delta_id ≡ some d) × (has d s.job_by_delta ≡ false)
unfolding create_guard
guard_outbox s job g o = elim (Option-cases job.delta_id) [
  | inl missing ↦ let bad : some outbox_job_needs_delta ≡ none = rw (o, missing) at g in cc
  | inr (d, given) ↦ elim (Bool-cases (has d s.job_by_delta)) [
    | inl taken ↦ let bad : some delta_already_mapped ≡ none = rw (o, given, taken) at g in cc
    | inr free ↦ (d, given, free)
  ]
]

is_outbox→eq : (o : JobOrigin) → is_outbox o ≡ true → o ≡ outbox
is_outbox→eq o h = ground arith

not_outbox : (o : JobOrigin) → is_outbox o ≡ false → o ≢ outbox
not_outbox o h e = ground arith

map_delta_plain :
    (job : SyncJob) (id : Str) (m : Map Str) → is_outbox job.origin ≡ false → map_delta job id m ≡ m
unfolding map_delta
map_delta_plain job id m plain = rw plain

map_delta_outbox :
    (job : SyncJob) (id d : Str) (m : Map Str)
    → is_outbox job.origin ≡ true
    → job.delta_id ≡ some d
    → map_delta job id m ≡ insert d id m
unfolding map_delta
map_delta_outbox job id d m o given = rw (o, given)

Created-Inv :
    {s : JobStore} {job : SyncJob} {now : Time} {r : JobStore × Result SyncJob}
    → Created s job now r
    → Inv s
    → Inv r.0
Created-Inv (refused e g) v = v
Created-Inv {s} {job} {now} (created n id g later named fresh) v =
    let s' = record s { next_id = n } in
    let v' : Inv s' = raise_next-Inv s n v (omega arith) in
    let job' = create_normalized job id now in
    elim (Bool-cases (is_outbox job.origin)) [
      | inr plain ↦ rw (map_delta_plain job id s.job_by_delta plain) (
          insert_plain-Inv s' v' id n job' fresh refl named (omega arith)
            (not_outbox job.origin plain))
      | inl o ↦
          let (d, given, free) = guard_outbox s job g o in
          rw (map_delta_outbox job id d s.job_by_delta o given) (
            insert_outbox-Inv s' v' id n job' fresh refl named (omega arith) d
              (is_outbox→eq job.origin o, given) free)
    ]

-- `Create` keeps the invariant on every branch, a context that has ended included.
pub create-Inv :
    (ctx : Ctx) (s : JobStore) (job : SyncJob) (now : Time) → Inv s → Inv (create ctx s job now).0
unfolding create
create-Inv (some e) s job now v = v
create-Inv none s job now v = elim (Bool-cases (is_empty job.id)) [
  | inl blank ↦ Created-Inv (create-Created s job now blank) v
  | inr given ↦ rw given v
]

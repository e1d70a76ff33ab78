-- ===== src/Jobs/Performs.antt =====
-- The calls of internal/store.go's `JobMemoryStore` but `Create`, against the state diagram of a job.
use deltaflow.Prelude.{
  ℤ, Str, true, false, ◌≡◌, refl, sym, none, some, List, [], ◌∷◌, lookup, insert, Keys, All, subst,
  All-take, take, map, Distinct-take, is_nonpos, to_count, arith, Bool-cases, Option-cases, inl,
  inr, is_empty, trim_space,
}
use deltaflow.Model.{Time, SyncJob, Ctx, is_processing}
use deltaflow.Jobs.State.{
  JobStore, Transition, job_lease_owned, is_lease_live, renew_lease_transition,
  mark_synced_transition, mark_retrying_transition, requeue_claimed_transition,
  mark_dead_transition,
}
use deltaflow.Jobs.Claim.{claim_first, claim_next, claim_next_batch, claimable_entries, claimed_job}
use deltaflow.Jobs.Owned.{
  update_owned, renew_lease, mark_synced, mark_retrying, requeue_claimed, mark_dead, to_renewed,
  to_synced, to_retrying, to_requeued, to_dead,
}
use deltaflow.Jobs.Operator.{
  update_expired, force_release_expired_lease, requeue_expired_lease, to_released,
  to_operator_requeued,
}
use deltaflow.Jobs.Calls.{
  Call, creates, claims, claims_batch, renews, syncs, retries, requeues, buries, releases,
  requeues_expired, perform,
}
use deltaflow.Jobs.Edges.{
  Edge, claim, renew, sync, retry, requeue, bury, release, requeue_expired, Writes, done, write,
  touched, IsClaimBy,
}
use deltaflow.Jobs.Claimable.{
  IsCandidate, claimable_entries-IsCandidate, claimable_entries-Distinct, write_claims-Writes,
  claimable_own_sync,
}
use deltaflow.Jobs.Batches.{claim_next_batch-ClaimsDone}

-- What a call that creates no job does to the store.
pub record Performs (now : Time) (c : Call) (s s' : JobStore) : Type 0 where
  pub next_id : s'.next_id ≡ s.next_id
  pub job_by_delta : s'.job_by_delta ≡ s.job_by_delta
  pub writes : Writes now c s.jobs s'.jobs

unchanged : {now : Time} {c : Call} (s : JobStore) → Performs now c s s
unchanged s = record { next_id = refl; job_by_delta = refl; writes = done }

-- The write of the owner of a live lease is an edge of the diagram.
abbrev IsOwnedEdge : Call → Str → (SyncJob → Time → SyncJob) → Str → Type 0
IsOwnedEdge c id fn w =
    (now : Time) (job : SyncJob)
    → job_lease_owned job now w ≡ true
    → Edge now c id job (touched (fn job now) now)

update_owned-Performs :
    (c : Call) (id : Str) (fn : SyncJob → Time → SyncJob) (w : Str)
    → IsOwnedEdge c id fn w
    → (ctx : Ctx) (s : JobStore) (t : Transition) (now : Time)
    → Performs now c s (update_owned ctx s id w t fn now).0
unfolding update_owned
update_owned-Performs c id fn w edge (some e) s t now = unchanged s
update_owned-Performs c id fn w edge none s t now = elim (Option-cases (lookup id s.jobs)) [
  | inl missing ↦ rw (missing, update_owned) (unchanged s)
  | inr (job, found) ↦ elim (Bool-cases (job_lease_owned job now w)) [
    | inl mine ↦
        rw (found, mine, update_owned)
          (record {
            next_id = refl;
            job_by_delta = refl;
            writes = write id job (touched (fn job now) now) found (edge now job mine) done;
          })
    | inr other ↦
        rw (found, other, update_owned)
          (record { next_id = refl; job_by_delta = refl; writes = done })
  ]
]

renew_lease-Performs :
    (ctx : Ctx) (s : JobStore) (id w : Str) (lock_for : ℤ) (now : Time)
    → Performs now (renews id w lock_for) s (renew_lease ctx s id w lock_for now).0
unfolding renew_lease
renew_lease-Performs (some e) s id w lock_for now = unchanged s
renew_lease-Performs none s id w lock_for now = elim (Bool-cases (is_nonpos lock_for)) [
  | inl bad ↦ rw bad (record { next_id = refl; job_by_delta = refl; writes = done })
  | inr good ↦
      let p =
        update_owned-Performs (renews id w lock_for) id (to_renewed lock_for) w
          (λ t job mine. renew w lock_for refl mine refl) none s renew_lease_transition now in
      rw good (record { next_id = p.next_id; job_by_delta = p.job_by_delta; writes = p.writes })
]

update_expired-Performs :
    (c : Call) (id : Str) (fn : SyncJob → Str → SyncJob)
    → ((now : Time) (job : SyncJob) (reason : Str)
        → is_processing job.state ≡ true
        → is_lease_live job.locked_until now ≡ false
        → Edge now c id job (touched (fn job reason) now))
    → (ctx : Ctx) (s : JobStore) (reason : Str) (now : Time)
    → Performs now c s (update_expired ctx s id reason fn now).0
unfolding update_expired
update_expired-Performs c id fn edge (some e) s reason now = unchanged s
update_expired-Performs c id fn edge none s reason now =
    elim (Bool-cases (is_empty (trim_space reason))) [
      | inl blank ↦ rw blank (unchanged s)
      | inr given ↦ rw given (elim (Option-cases (lookup id s.jobs)) [
        | inl missing ↦ rw missing (unchanged s)
        | inr (job, found) ↦ elim (Bool-cases (is_processing job.state)) [
          | inr idle ↦ rw (found, idle) (unchanged s)
          | inl busy ↦ elim (Bool-cases (is_lease_live job.locked_until now)) [
            | inl live ↦ rw (found, busy, live) (unchanged s)
            | inr over ↦
                rw (found, busy, over)
                  (record {
                    next_id = refl;
                    job_by_delta = refl;
                    writes =
                        write id job (touched (fn job (trim_space reason)) now) found
                          (edge now job (trim_space reason) busy over) done;
                  })
          ]
        ]
      ])
    ]

-- With different keys the first identifier is that of the first claimable entry.
claim_first-Performs :
    (c : Call) (s : JobStore) (sync_id w : Str) (lock_for : ℤ) (now : Time)
    (es : List (Str × SyncJob))
    → IsClaimBy w c
    → All (IsCandidate s.jobs now sync_id) es
    → Performs now c s (claim_first s (map (λ e. e.0) es) w lock_for now).0
unfolding claim_first
claim_first-Performs c s sync_id w lock_for now [] by h = record {
  next_id = refl;
  job_by_delta = refl;
  writes = done;
}
claim_first-Performs c s sync_id w lock_for now ((id, job) ∷ es) by h =
    rw (h.0.0, claim_first) (ground (arith, claim_write))
  where
    claim_write : Writes now c s.jobs (insert id (claimed_job job w now lock_for) s.jobs)
    claim_write =
        write id job (claimed_job job w now lock_for) h.0.0
          (claim w lock_for by (claimable_own_sync job now sync_id h.0.1) refl) done

claim_next-Performs :
    (ctx : Ctx) (s : JobStore) (sync_id w : Str) (lock_for : ℤ) (now : Time)
    → Keys s.jobs
    → Performs now (claims sync_id w lock_for) s (claim_next ctx s sync_id w lock_for now).0
unfolding claim_next
claim_next-Performs (some e) s sync_id w lock_for now unique = unchanged s
claim_next-Performs none s sync_id w lock_for now unique = elim (Bool-cases (is_nonpos lock_for)) [
  | inl bad ↦ rw bad (record { next_id = refl; job_by_delta = refl; writes = done })
  | inr good ↦ rw good (
      claim_first-Performs (claims sync_id w lock_for) s sync_id w lock_for now
        (claimable_entries s now sync_id) refl (claimable_entries-IsCandidate s now sync_id unique))
]

claim_next_batch-Performs :
    (ctx : Ctx) (s : JobStore) (sync_id w : Str) (limit lock_for : ℤ) (now : Time)
    → Keys s.jobs
    → Performs now
        (claims_batch sync_id w limit lock_for)
        s
        (claim_next_batch ctx s sync_id w limit lock_for now).0
unfolding claim_next_batch
claim_next_batch-Performs (some e) s sync_id w limit lock_for now unique = unchanged s
claim_next_batch-Performs none s sync_id w limit lock_for now unique =
    elim (Bool-cases (is_nonpos lock_for)) [
      | inl bad ↦ rw bad (record { next_id = refl; job_by_delta = refl; writes = done })
      | inr pos ↦ elim (Bool-cases (is_nonpos limit)) [
        | inl zero_limit ↦ rw (pos, zero_limit) (unchanged s)
        | inr some_limit ↦
            let n = to_count limit in
            let all = claimable_entries s now sync_id in
            let c =
              claim_next_batch-ClaimsDone s sync_id w limit lock_for now unique pos some_limit in
            record {
              next_id = c.next_id;
              job_by_delta = c.job_by_delta;
              writes =
                  subst (Writes now (claims_batch sync_id w limit lock_for) s.jobs) (sym c.jobs) (
                    write_claims-Writes w lock_for now sync_id _ refl (take n all) s.jobs
                      (All-take (IsCandidate s.jobs now sync_id) n all
                        (claimable_entries-IsCandidate s now sync_id unique))
                      (Distinct-take n all (claimable_entries-Distinct s now sync_id unique)));
            }
      ]
    ]

abbrev pub IsCreates : Call → Type 0
IsCreates (creates job) = Unit {0}
IsCreates _ = ⊥

-- Every call but `Create`, whatever it returns, only makes writes along the edges.
pub perform-Performs :
    (c : Call) (ctx : Ctx) (now : Time) (s : JobStore)
    → ¬ IsCreates c
    → Keys s.jobs
    → Performs now c s (perform c ctx now s)
unfolding perform
perform-Performs (creates job) ctx now s h u = absurd (h tt)
perform-Performs (claims sync_id w lock_for) ctx now s h u =
    claim_next-Performs ctx s sync_id w lock_for now u
perform-Performs (claims_batch sync_id w limit lock_for) ctx now s h u =
    claim_next_batch-Performs ctx s sync_id w limit lock_for now u
perform-Performs (renews id w lock_for) ctx now s h u = renew_lease-Performs ctx s id w lock_for now
perform-Performs (syncs id w ghost) ctx now s h u =
    unfold mark_synced in
    update_owned-Performs (syncs id w ghost) id (to_synced ghost) w
      (λ t job mine. sync w ghost refl mine refl) ctx s mark_synced_transition now
perform-Performs (retries id w e next) ctx now s h u =
    unfold mark_retrying in
    update_owned-Performs (retries id w e next) id (to_retrying e next) w
      (λ t job mine. retry w e next refl mine refl) ctx s mark_retrying_transition now
perform-Performs (requeues id w e next) ctx now s h u =
    unfold requeue_claimed in
    update_owned-Performs (requeues id w e next) id (to_requeued e next) w
      (λ t job mine. requeue w e next refl mine refl) ctx s requeue_claimed_transition now
perform-Performs (buries id w e) ctx now s h u =
    unfold mark_dead in
    update_owned-Performs (buries id w e) id (to_dead e) w (λ t job mine. bury w e refl mine refl)
      ctx s mark_dead_transition now
perform-Performs (releases id reason) ctx now s h u =
    unfold force_release_expired_lease in
    update_expired-Performs (releases id reason) id to_released
      (λ t job r busy over. release r busy over refl) ctx s reason now
perform-Performs (requeues_expired id next reason) ctx now s h u =
    unfold requeue_expired_lease in
    update_expired-Performs (requeues_expired id next reason) id (to_operator_requeued next)
      (λ t job r busy over. requeue_expired r next busy over refl) ctx s reason now

-- ===== src/Jobs/Claimable.antt =====
-- `claimableJobIDsLocked` of internal/store.go: the claimable jobs of the map, each once, in the
-- order of claims; and the loop of `ClaimNextBatch` over them.
use deltaflow.Prelude.{
  ℤ, Str, Map, Bool, true, ◌≡◌, refl, some, List, [], ◌∷◌, lookup, insert, Keys, All, All-select,
  select-All, All-lookup, map, IsSortedBy, sort_by-IsSortedBy, All-sort_by, sort_by-All, Distinct,
  Keys-Distinct, Distinct-select, Distinct-sort_by, IsEntry, Keys-IsEntry, insert-IsEntry, Apart,
  arith, str_lt, str_eq_iff,
}
use deltaflow.Model.{Time, SyncJob, ok}
use deltaflow.Jobs.State.{JobStore, claimable_job, was_expired_processing}
use deltaflow.Jobs.Claim.{claim_before, claimable_entries, claimed_job, claim_ids}
use deltaflow.Jobs.Calls.{Call}
use deltaflow.Jobs.Edges.{claim, IsClaimBy, Writes, done, write}

-- The order of claims is the order of these texts.
abbrev claim_key : Str × SyncJob → Str
claim_key (_, job) = job.available_at ∷ job.created_at ∷ job.id

claim_before_key : (a b : Str × SyncJob) → claim_before a b ≡ str_lt (claim_key a) (claim_key b)
unfolding claim_before str_lt
claim_before_key a b = ground arith

pub claimable_entries-IsSortedBy :
    (s : JobStore) (now : Time) (sync_id : Str)
    → IsSortedBy claim_before (claimable_entries s now sync_id)
unfolding claimable_entries
claimable_entries-IsSortedBy s now sync_id =
    sort_by-IsSortedBy claim_before claim_key claim_before_key _

-- An entry of the map whose job can be claimed.
abbrev pub IsCandidate : Map SyncJob → Time → Str → Str × SyncJob → Type 0
IsCandidate m now sync_id e = IsEntry m e × (claimable_job e.1 now sync_id ≡ true)

pub claimable_entries-IsCandidate :
    (s : JobStore) (now : Time) (sync_id : Str)
    → Keys s.jobs
    → All (IsCandidate s.jobs now sync_id) (claimable_entries s now sync_id)
unfolding claimable_entries
claimable_entries-IsCandidate s now sync_id unique =
    All-sort_by claim_before (IsCandidate s.jobs now sync_id) _ (
      All-select (IsEntry s.jobs) (λ e. claimable_job e.1 now sync_id) s.jobs
        (Keys-IsEntry s.jobs unique))

pub claimable_entries-Distinct :
    (s : JobStore) (now : Time) (sync_id : Str)
    → Keys s.jobs
    → Distinct (claimable_entries s now sync_id)
unfolding claimable_entries
claimable_entries-Distinct s now sync_id unique =
    Distinct-sort_by claim_before _
      (Distinct-select (λ e. claimable_job e.1 now sync_id) s.jobs (Keys-Distinct s.jobs unique))

-- What holds of all claimable entries holds of each claimable job of the map.
pub claimable_entries-complete {ℓ} :
    (P : Str × SyncJob → Type ℓ) (s : JobStore) (now : Time) (sync_id id : Str) (job : SyncJob)
    → All P (claimable_entries s now sync_id)
    → lookup id s.jobs ≡ some job
    → claimable_job job now sync_id ≡ true
    → P (id, job)
unfolding claimable_entries
claimable_entries-complete P s now sync_id id job h found can =
    All-lookup (λ e. claimable_job e.1 now sync_id ≡ true → P e) id job s.jobs
      (select-All P (λ e. claimable_job e.1 now sync_id) s.jobs (sort_by-All claim_before P _ h))
      found can

-- The map after a claim of each of some entries.
unfoldable pub write_claims : List (Str × SyncJob) → Str → ℤ → Time → Map SyncJob → Map SyncJob
write_claims [] w lock_for now m = m
write_claims ((id, job) ∷ es) w lock_for now m =
    write_claims es w lock_for now (insert id (claimed_job job w now lock_for) m)

abbrev pub claims_of : List (Str × SyncJob) → Str → ℤ → Time → List (SyncJob × Bool)
claims_of es w lock_for now =
    map (λ (e : Str × SyncJob). (claimed_job e.1 w now lock_for, was_expired_processing e.1 now)) es

pub claimable_own_sync :
    (job : SyncJob) (now : Time) (sync_id : Str)
    → claimable_job job now sync_id ≡ true
    → claimable_job job now job.sync_id ≡ true
unfolding claimable_job
claimable_own_sync job now sync_id h =
    ground (arith, str_eq_iff job.sync_id sync_id, str_eq_iff job.sync_id job.sync_id)

keep_candidates :
    (m : Map SyncJob) (now : Time) (sync_id id : Str) (job job' : SyncJob)
    (es : List (Str × SyncJob))
    → All (Apart (id, job)) es
    → All (IsCandidate m now sync_id) es
    → All (IsCandidate (insert id job' m) now sync_id) es
keep_candidates m now sync_id id job job' [] a h = tt
keep_candidates m now sync_id id job job' (e ∷ es) a h = (
  (insert-IsEntry id job' m e a.0 h.0.0, h.0.1),
  keep_candidates m now sync_id id job job' es a.1 h.1,
)

module _ (w : Str) (lock_for : ℤ) (now : Time) (sync_id : Str) where
  -- The loop claims exactly the entries that it is given, each once.
  pub claim_ids_lem :
      (es : List (Str × SyncJob)) (m : Map SyncJob)
      → All (IsCandidate m now sync_id) es
      → Distinct es
      → claim_ids m (map (λ e. e.0) es) w lock_for now
        ≡ (write_claims es w lock_for now m, ok (claims_of es w lock_for now))
  unfolding claim_ids write_claims
  claim_ids_lem [] m h d = refl
  claim_ids_lem ((id, job) ∷ es) m h d =
      let job' = claimed_job job w now lock_for in
      rw (h.0.0, claim_ids)
        (rw (
          claim_ids_lem es (insert id job' m) (keep_candidates m now sync_id id job job' es d.0 h.1)
            d.1))

  pub write_claims-Writes :
      (c : Call)
      → IsClaimBy w c
      → (es : List (Str × SyncJob)) (m : Map SyncJob) → All (IsCandidate m now sync_id) es
      → Distinct es
      → Writes now c m (write_claims es w lock_for now m)
  unfolding write_claims
  write_claims-Writes c by [] m h d = done
  write_claims-Writes c by ((id, job) ∷ es) m h d =
      let job' = claimed_job job w now lock_for in
      write id job job' h.0.0 (claim w lock_for by (claimable_own_sync job now sync_id h.0.1) refl)
        (write_claims-Writes c by es (insert id job' m)
          (keep_candidates m now sync_id id job job' es d.0 h.1) d.1)

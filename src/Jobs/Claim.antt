-- ===== src/Jobs/Claim.antt =====
-- internal/store.go: `ClaimNext`, `ClaimNextBatch` and `claimableJobIDsLocked` of `JobMemoryStore`.
use deltaflow.Prelude.{
  ℤ, Str, Map, Bool, if◌then◌else◌, not, Option, none, some, List, [], ◌∷◌, map, ◌==◌, str_lt,
  lookup, insert, sort_by, select, take, is_nonpos, to_count, add_duration, ltb,
}
use deltaflow.Model.{
  Time, SyncJob, processing, Ctx, invalid_lock_for, Result, ok, err, nil_dereference, diverges,
}
use deltaflow.Jobs.State.{
  JobStore, observe, observe_lease_claim, observe_lease_reclaim, success, empty,
  invalid_lock_for_result, claimable_job, was_expired_processing,
}

-- The order of claims: `AvailableAt`, then `CreatedAt`, then the identifier.
unfoldable pub claim_before : Str × SyncJob → Str × SyncJob → Bool
claim_before (_, left) (_, right) =
    if not (left.available_at == right.available_at)
    then ltb left.available_at right.available_at
    else if not (left.created_at == right.created_at)
    then ltb left.created_at right.created_at
    else str_lt left.id right.id

-- The claimable entries of the map, in the order of claims.
unfoldable pub claimable_entries : JobStore → Time → Str → List (Str × SyncJob)
unfolding claim_before
claimable_entries s now sync_id =
    sort_by claim_before (select (λ e. claimable_job e.1 now sync_id) s.jobs)

-- `claimableJobIDsLocked`
unfoldable pub claimable_job_ids : JobStore → Time → Str → List Str
unfolding claimable_entries
claimable_job_ids s now sync_id = map (λ e. e.0) (claimable_entries s now sync_id)

-- The fields that a claim writes.
abbrev pub claimed_job : SyncJob → Str → Time → ℤ → SyncJob
claimed_job job worker_id now lock_for = record job {
  state = processing;
  locked_by = some worker_id;
  locked_until = some (add_duration now lock_for);
  updated_at = now;
}

-- The telemetry of one claim; a claim of an expired lease is a reclaim too.
abbrev pub observe_claim : Bool → JobStore → JobStore
observe_claim expired s =
    let s' = observe (observe_lease_claim success) s in
    if expired then observe observe_lease_reclaim s' else s'

-- `ClaimNext` from the test `len(ids) == 0` on.
unfoldable pub claim_first :
    JobStore → List Str → Str → ℤ → Time → JobStore × Result (Option SyncJob)
claim_first s [] worker_id lock_for now = (observe (observe_lease_claim empty) s, ok none)
claim_first s (id ∷ _) worker_id lock_for now = elim (lookup id s.jobs) [
  | none ↦ (s, nil_dereference)
  | some job ↦
      let job' = claimed_job job worker_id now lock_for in
      (
        observe_claim (was_expired_processing job now) (record s { jobs = insert id job' s.jobs }),
        ok (some job'),
      )
]

-- `ClaimNext`
unfoldable pub claim_next :
    Ctx → JobStore → Str → Str → ℤ → Time → JobStore × Result (Option SyncJob)
unfolding claimable_job_ids claim_first
claim_next (some e) s sync_id worker_id lock_for now = (s, err e)
claim_next none s sync_id worker_id lock_for now =
    if is_nonpos lock_for
    then (observe (observe_lease_claim invalid_lock_for_result) s, err invalid_lock_for)
    else claim_first s (claimable_job_ids s now sync_id) worker_id lock_for now

-- The loop over the identifiers: the jobs as claimed, and for each whether its lease had expired.
unfoldable pub claim_ids :
    Map SyncJob → List Str → Str → ℤ → Time → Map SyncJob × Result (List (SyncJob × Bool))
claim_ids jobs [] worker_id lock_for now = (jobs, ok [])
claim_ids jobs (id ∷ ids) worker_id lock_for now = elim (lookup id jobs) [
  | none ↦ (jobs, nil_dereference)
  | some job ↦
      let job' = claimed_job job worker_id now lock_for in
      let (jobs', rest) = claim_ids (insert id job' jobs) ids worker_id lock_for now in
      (
        jobs',
        elim rest [
          | ok claimed ↦ ok ((job', was_expired_processing job now) ∷ claimed)
          | err e ↦ err e
          | nil_dereference ↦ nil_dereference
          | diverges ↦ diverges
        ],
      )
]

-- The telemetry of the batch, in the order of the claims.
unfoldable pub observe_claims : List (SyncJob × Bool) → JobStore → JobStore
observe_claims [] s = s
observe_claims ((job, expired) ∷ claimed) s = observe_claims claimed (observe_claim expired s)

-- What the loop has claimed, with the telemetry.
abbrev pub claims_reported :
    JobStore → Map SyncJob × Result (List (SyncJob × Bool)) → JobStore × Result (List SyncJob)
claims_reported s (jobs', ok cs) =
    (observe_claims cs (record s { jobs = jobs' }), ok (map (λ c. c.0) cs))
claims_reported s (jobs', err e) = (record s { jobs = jobs' }, err e)
claims_reported s (jobs', nil_dereference) = (record s { jobs = jobs' }, nil_dereference)
claims_reported s (jobs', diverges) = (record s { jobs = jobs' }, diverges)

-- `ClaimNextBatch` from the test `len(ids) == 0` on.
unfoldable pub claim_listed :
    JobStore → List Str → Str → ℤ → Time → JobStore × Result (List SyncJob)
unfolding claim_ids observe_claims
claim_listed s [] worker_id lock_for now = (observe (observe_lease_claim empty) s, ok [])
claim_listed s (id ∷ ids) worker_id lock_for now =
    claims_reported s (claim_ids s.jobs (id ∷ ids) worker_id lock_for now)

-- `ClaimNextBatch`
unfoldable pub claim_next_batch :
    Ctx → JobStore → Str → Str → ℤ → ℤ → Time → JobStore × Result (List SyncJob)
unfolding claimable_job_ids claim_listed
claim_next_batch (some e) s sync_id worker_id limit lock_for now = (s, err e)
claim_next_batch none s sync_id worker_id limit lock_for now =
    if is_nonpos lock_for
    then (observe (observe_lease_claim invalid_lock_for_result) s, err invalid_lock_for)
    else if is_nonpos limit
    then (s, ok [])
    else claim_listed s (take (to_count limit) (claimable_job_ids s now sync_id)) worker_id lock_for
        now

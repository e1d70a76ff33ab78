-- ===== src/Jobs/Batches.antt =====
-- What `ClaimNextBatch` of internal/store.go's `JobMemoryStore` answers and leaves behind.
use deltaflow.Prelude.{
  ℤ, Str, Bool, false, ◌≡◌, refl, sym, none, List, [], ◌∷◌, Keys, All, subst, All-take, take,
  take-map, map, Distinct, Distinct-take, is_nonpos, to_count, arith,
}
use deltaflow.Model.{Time, SyncJob, Result, ok}
use deltaflow.Jobs.State.{JobStore}
use deltaflow.Jobs.Claim.{
  claim_next_batch, claim_listed, claims_reported, claimable_entries, observe_claims, observe_claim,
}
use deltaflow.Jobs.Claimable.{
  IsCandidate, claimable_entries-IsCandidate, claimable_entries-Distinct, claim_ids_lem,
  write_claims, claims_of,
}

observe_claims-frame :
    (cs : List (SyncJob × Bool)) (s : JobStore)
    → ((observe_claims cs s).jobs ≡ s.jobs)
      × ((observe_claims cs s).next_id ≡ s.next_id)
      × ((observe_claims cs s).job_by_delta ≡ s.job_by_delta)
unfolding observe_claims
observe_claims-frame [] s = (refl, refl, refl)
observe_claims-frame ((job, expired) ∷ cs) s =
    ground (arith, observe_claims-frame cs (observe_claim expired s))

-- What a batch of claims does: each of the entries is claimed once, and no other job is written.
pub record ClaimsDone (s : JobStore) (es : List (Str × SyncJob)) (w : Str) (lock_for : ℤ)
    (now : Time) (r : JobStore × Result (List SyncJob)) : Type 0 where
  pub jobs : r.0.jobs ≡ write_claims es w lock_for now s.jobs
  pub claimed : r.1 ≡ ok (map (λ c. c.0) (claims_of es w lock_for now))
  pub next_id : r.0.next_id ≡ s.next_id
  pub job_by_delta : r.0.job_by_delta ≡ s.job_by_delta

claims_reported-ClaimsDone :
    (s : JobStore) (es : List (Str × SyncJob)) (w : Str) (lock_for : ℤ) (now : Time)
    → ClaimsDone s es w lock_for now (
        claims_reported s (write_claims es w lock_for now s.jobs, ok (claims_of es w lock_for now)))
claims_reported-ClaimsDone s es w lock_for now =
    let s' = record s { jobs = write_claims es w lock_for now s.jobs } in
    let frame = observe_claims-frame (claims_of es w lock_for now) s' in
    record { jobs = frame.0; claimed = refl; next_id = frame.1; job_by_delta = frame.2 }

claim_listed-ClaimsDone :
    (s : JobStore) (sync_id w : Str) (lock_for : ℤ) (now : Time) (es : List (Str × SyncJob))
    → All (IsCandidate s.jobs now sync_id) es
    → Distinct es
    → ClaimsDone s es w lock_for now (claim_listed s (map (λ e. e.0) es) w lock_for now)
unfolding claim_listed
claim_listed-ClaimsDone s sync_id w lock_for now [] h d =
    unfold write_claims in
    record { jobs = refl; claimed = refl; next_id = refl; job_by_delta = refl }
claim_listed-ClaimsDone s sync_id w lock_for now (e ∷ es) h d =
    subst (λ c. ClaimsDone s (e ∷ es) w lock_for now (claims_reported s c))
      (sym (claim_ids_lem w lock_for now sync_id (e ∷ es) s.jobs h d))
      (claims_reported-ClaimsDone s (e ∷ es) w lock_for now)

-- In a store that keeps no key twice, with a positive duration and limit and a context that has not
-- ended, `ClaimNextBatch` claims the first claimable entries up to the limit, each once, answers the
-- jobs as claimed in that order, and changes neither the numbering nor the index of deltas.
pub claim_next_batch-ClaimsDone :
    (s : JobStore) (sync_id w : Str) (limit lock_for : ℤ) (now : Time)
    → Keys s.jobs
    → is_nonpos lock_for ≡ false
    → is_nonpos limit ≡ false
    → ClaimsDone s
        (take (to_count limit) (claimable_entries s now sync_id))
        w
        lock_for
        now
        (claim_next_batch none s sync_id w limit lock_for now)
unfolding claim_next_batch
claim_next_batch-ClaimsDone s sync_id w limit lock_for now unique pos some_limit =
    let n = to_count limit in
    let all = claimable_entries s now sync_id in
    rw (pos, some_limit, take-map (λ (e : Str × SyncJob). e.0) n all)
      (claim_listed-ClaimsDone s sync_id w lock_for now (take n all)
        (All-take (IsCandidate s.jobs now sync_id) n all
          (claimable_entries-IsCandidate s now sync_id unique))
        (Distinct-take n all (claimable_entries-Distinct s now sync_id unique)))

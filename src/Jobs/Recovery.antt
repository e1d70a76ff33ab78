-- ===== src/Jobs/Recovery.antt =====
-- What becomes of a job of internal/store.go's `JobMemoryStore` whose claimant goes silent.
use deltaflow.Prelude.{
  ℤ, Str, true, false, ◌≡◌, refl, ◌≤◌, Option, none, some, List, All, lookup, is_nonpos,
  add_duration, arith, subst, sym,
}
use deltaflow.Model.{Time, SyncJob, Result, ok}
use deltaflow.Jobs.State.{JobStore, claimable_job, claimable_state}
use deltaflow.Jobs.Claim.{claim_next, claimed_job}
use deltaflow.Jobs.Calls.{Event, run, perform, claims}
use deltaflow.Jobs.Invariant.{Inv}
use deltaflow.Jobs.Histories.{run-Inv, perform-Inv}
use deltaflow.Jobs.Leases.{IsForeign}
use deltaflow.Jobs.Claims.{
  Claimed, nothing, first, claim_next-Claimed, Claimed-some, claim_exclusive,
}

claimed_job-reclaimable :
    (job : SyncJob) (w : Str) (now later : Time) (lock_for : ℤ) (sync_id : Str)
    → claimable_job job now sync_id ≡ true
    → add_duration now lock_for ≤ later
    → claimable_job (claimed_job job w now lock_for) later sync_id ≡ true
unfolding claimable_job claimable_state
claimed_job-reclaimable job w now later lock_for sync_id can ended = ground arith

-- Where a job can be claimed, a claim answers a job.
Claimed-answers :
    {s : JobStore} {sync_id w : Str} {lock_for : ℤ} {now : Time}
    {r : JobStore × Result (Option SyncJob)} (id : Str) (job : SyncJob)
    → Claimed s sync_id w lock_for now r
    → lookup id s.jobs ≡ some job
    → claimable_job job now sync_id ≡ true
    → (k : SyncJob) × (r.1 ≡ ok (some k))
Claimed-answers id job (nothing none_claimable) found can =
    let never : claimable_job job _ _ ≡ false = none_claimable id job found in cc
Claimed-answers {w = w} {lock_for} {now} id job (first i k f c l) found can =
    (claimed_job k w now lock_for, refl)

-- If a claimant of a job of a well-formed store goes silent, so that a history of calls before the
-- end of its lease holds no transition of the job by it, then from that end on a claim in the
-- sync, by any worker, answers a job.
pub claim_recovers :
    (s s' : JobStore) (sync_id w : Str) (lock_for : ℤ) (now : Time) (job : SyncJob)
    (es : List Event) (w' : Str) (lock_for' : ℤ) (later : Time)
    → Inv s
    → is_nonpos lock_for ≡ false
    → claim_next none s sync_id w lock_for now ≡ (s', ok (some job))
    → All (IsForeign w (add_duration now lock_for) job.id) es
    → is_nonpos lock_for' ≡ false
    → add_duration now lock_for ≤ later
    → (k : SyncJob) × ((claim_next none (run s' es) sync_id w' lock_for' later).1 ≡ ok (some k))
claim_recovers s s' sync_id w lock_for now job es w' lock_for' later v positive claimed foreign
      positive' ended =
    let answer =
      subst (Claimed s sync_id w lock_for now) claimed
        (claim_next-Claimed s sync_id w lock_for now v positive) in
    let (id, old, found, can, eq, jobs) = Claimed-some job answer refl in
    let again : claimable_job job later sync_id ≡ true =
      subst (λ (j : SyncJob). claimable_job j later sync_id ≡ true) (sym eq)
        (claimed_job-reclaimable old w now later lock_for sync_id can ended) in
    let after : Inv s' =
      subst (λ (r : JobStore × Result (Option SyncJob)). Inv r.0) claimed
        (unfold perform in perform-Inv (claims sync_id w lock_for) none now s v) in
    Claimed-answers job.id job
      (claim_next-Claimed (run s' es) sync_id w' lock_for' later (run-Inv s' es after) positive')
      (claim_exclusive s s' sync_id w lock_for now job v positive claimed es foreign) again

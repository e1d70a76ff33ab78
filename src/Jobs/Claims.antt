-- ===== src/Jobs/Claims.antt =====
-- What `ClaimNext` of internal/store.go's `JobMemoryStore` answers, on every branch.
use deltaflow.Prelude.{
  ℤ, Str, Bool, true, false, ◌≡◌, ◌≢◌, refl, sym, ◌∙◌, ap, ◌<◌, inl, inr, Option, none, some, List,
  [], ◌∷◌, All, All-lookup, map, IsSortedBy, lookup, insert, lookup-insert_self, is_nonpos,
  add_duration, Bool-cases, arith, subst, str_lt_irrefl,
}
use deltaflow.Model.{Time, SyncJob, Result, ok}
use deltaflow.Jobs.State.{
  JobStore, observe, observe_lease_claim, empty, claimable_job, was_expired_processing,
}
use deltaflow.Jobs.Claim.{
  claim_first, claim_next, claim_before, claimable_entries, claimed_job, observe_claim,
}
use deltaflow.Jobs.Calls.{Event, run, claims, perform}
use deltaflow.Jobs.Invariant.{Inv}
use deltaflow.Jobs.Histories.{perform-Inv, run-Inv}
use deltaflow.Jobs.Claimable.{
  IsCandidate, claimable_entries-IsCandidate, claimable_entries-IsSortedBy,
  claimable_entries-complete,
}
use deltaflow.Jobs.Leases.{HasLease, IsForeign, lease_exclusive}

-- Nothing claimable of the sync stands before the entry.
abbrev pub IsFirst : JobStore → Time → Str → Str × SyncJob → Type 0
IsFirst s now sync_id e =
    (id : Str) (job : SyncJob)
    → lookup id s.jobs ≡ some job
    → claimable_job job now sync_id ≡ true
    → claim_before (id, job) e ≡ false

pub data Claimed (s : JobStore) (sync_id w : Str) (lock_for : ℤ) (now : Time)
    : JobStore × Result (Option SyncJob) → Type 0 where
  nothing :
      ((id : Str) (job : SyncJob)
        → lookup id s.jobs ≡ some job
        → claimable_job job now sync_id ≡ false)
      → Claimed s sync_id w lock_for now (observe (observe_lease_claim empty) s, ok none)
  first :
      (id : Str) (job : SyncJob)
      → lookup id s.jobs ≡ some job
      → claimable_job job now sync_id ≡ true
      → IsFirst s now sync_id (id, job)
      → Claimed s sync_id w lock_for now (
        observe_claim
            (was_expired_processing job now)
            (record s { jobs = insert id (claimed_job job w now lock_for) s.jobs }),
        ok (some (claimed_job job w now lock_for)),
      )

claim_before_irrefl : (e : Str × SyncJob) → claim_before e e ≡ false
unfolding claim_before
claim_before_irrefl (id, job) = ground (arith, str_lt_irrefl job.id)

claim_first-Claimed :
    (s : JobStore) (sync_id w : Str) (lock_for : ℤ) (now : Time)
    → Inv s
    → (es : List (Str × SyncJob)) → claimable_entries s now sync_id ≡ es
    → Claimed s sync_id w lock_for now (claim_first s (map (λ e. e.0) es) w lock_for now)
unfolding claim_first
claim_first-Claimed s sync_id w lock_for now v [] e = nothing λ id job found.
    elim (Bool-cases (claimable_job job now sync_id)) [
      | inr no_claim ↦ no_claim
      | inl can ↦
          absurd (claimable_entries-complete (λ x. ⊥) s now sync_id id job (rw e tt) found can)
    ]
claim_first-Claimed s sync_id w lock_for now v ((id, job) ∷ es) e =
    let all =
      subst (All (IsCandidate s.jobs now sync_id)) e
        (claimable_entries-IsCandidate s now sync_id v.unique) in
    let sorted = subst (IsSortedBy claim_before) e (claimable_entries-IsSortedBy s now sync_id) in
    let least : IsFirst s now sync_id (id, job) = λ i k found can.
      claimable_entries-complete (λ x. claim_before x (id, job) ≡ false) s now sync_id i k
        (rw e (claim_before_irrefl (id, job), sorted.0)) found can in
    rw (all.0.0, claim_first) (first id job all.0.0 all.0.1 least)

-- In a well-formed store, with a positive duration and a context that has not ended, `ClaimNext`
-- claims a claimable job of the sync before which no other stands in the order of claims, or answers
-- nil where no job of the sync is claimable; so it neither fails nor dereferences nil.
pub claim_next-Claimed :
    (s : JobStore) (sync_id w : Str) (lock_for : ℤ) (now : Time)
    → Inv s
    → is_nonpos lock_for ≡ false
    → Claimed s sync_id w lock_for now (claim_next none s sync_id w lock_for now)
unfolding claim_next
claim_next-Claimed s sync_id w lock_for now v positive =
    rw positive
      (claim_first-Claimed s sync_id w lock_for now v (claimable_entries s now sync_id) refl)

observe_claim-jobs : (b : Bool) (s : JobStore) → (observe_claim b s).jobs ≡ s.jobs
observe_claim-jobs true s = refl
observe_claim-jobs false s = refl

-- Where the answer is a job, it is one of the map that could be claimed.
pub Claimed-some :
    {s : JobStore} {sync_id w : Str} {lock_for : ℤ} {now : Time}
    {r : JobStore × Result (Option SyncJob)} (k : SyncJob)
    → Claimed s sync_id w lock_for now r
    → r.1 ≡ ok (some k)
    → (id : Str) × (job : SyncJob) × (lookup id s.jobs ≡ some job)
      × (claimable_job job now sync_id ≡ true)
      × (k ≡ claimed_job job w now lock_for)
      × (r.0.jobs ≡ insert id k s.jobs)
Claimed-some k (nothing none_claimable) e = cc
Claimed-some {s} {w = w} {lock_for} {now} k (first id job found can least) e =
    let eq : claimed_job job w now lock_for ≡ k = ground arith in
    (id, job, found, can, sym eq, observe_claim-jobs _ _ ∙ ap (λ j. insert id j s.jobs) eq)

claimed_job-HasLease :
    (job : SyncJob) (w : Str) (now : Time) (lock_for : ℤ)
    → HasLease w (add_duration now lock_for) (claimed_job job w now lock_for)
claimed_job-HasLease job w now lock_for = record { state = refl; by = refl; until_time = refl }

leased-not_claimable :
    (job : SyncJob) (w : Str) (until now : Time) (sync_id : Str)
    → HasLease w until job
    → now < until
    → claimable_job job now sync_id ≡ false
unfolding claimable_job
leased-not_claimable job w until now sync_id l t = ground arith

module _ (s s' : JobStore) (sync_id w : Str) (lock_for : ℤ) (now : Time) (job : SyncJob) (v : Inv s)
    (positive : is_nonpos lock_for ≡ false)
    (claimed : claim_next none s sync_id w lock_for now ≡ (s', ok (some job))) where
  claim_answer : Claimed s sync_id w lock_for now (s', ok (some job))
  claim_answer =
      subst (Claimed s sync_id w lock_for now) claimed
        (claim_next-Claimed s sync_id w lock_for now v positive)

  -- A claimed job is in the store under its identifier, leased to the claimant for the duration.
  pub claim_leases : (lookup job.id s'.jobs ≡ some job) × HasLease w (add_duration now lock_for) job
  claim_leases =
      let (id, old, found, can, eq, jobs) = Claimed-some job claim_answer refl in
      let named : job.id ≡ id =
        ap (λ (j : SyncJob). j.id) eq
        ∙ All-lookup (λ e. e.1.id ≡ e.0) id old s.jobs v.named found in
      (
        subst (λ i. lookup i s'.jobs ≡ some job) (sym named)
            (ap (lookup id) jobs ∙ lookup-insert_self id job s.jobs),
        rw eq (claimed_job-HasLease old w now lock_for),
      )

  claim-Inv : Inv s'
  claim-Inv =
      subst Inv (ap (λ (r : JobStore × Result (Option SyncJob)). r.0) claimed)
        (unfold perform in perform-Inv (claims sync_id w lock_for) none now s v)

  module _ (es : List Event)
      (foreign : All (IsForeign w (add_duration now lock_for) job.id) es) where
    -- A job claimed from a well-formed store stays as it was claimed under every history of calls
    -- before the lease ends that holds no transition of it by the claimant.
    pub claim_exclusive : lookup job.id (run s' es).jobs ≡ some job
    claim_exclusive =
        lease_exclusive s' es job.id w (add_duration now lock_for) job claim-Inv claim_leases.0
          claim_leases.1 foreign

    -- After a claim of a job from a well-formed store, and any history of calls before its lease ends
    -- that holds no transition of it by the claimant, no claim before that end gives out the same job.
    pub no_double_claim :
        (s'' : JobStore) (sync_id' w' : Str) (lock_for' : ℤ) (later : Time) (other : SyncJob)
        → later < add_duration now lock_for
        → is_nonpos lock_for' ≡ false
        → claim_next none (run s' es) sync_id' w' lock_for' later ≡ (s'', ok (some other))
        → other.id ≢ job.id
    no_double_claim s'' sync_id' w' lock_for' later other before positive' again same =
        let v' = run-Inv s' es claim-Inv in
        let answer =
          subst (Claimed (run s' es) sync_id' w' lock_for' later) again
            (claim_next-Claimed (run s' es) sync_id' w' lock_for' later v' positive') in
        let (id, old, found, can, eq, jobs) = Claimed-some other answer refl in
        let named : other.id ≡ id =
          ap (λ (j : SyncJob). j.id) eq
          ∙ All-lookup (λ e. e.1.id ≡ e.0) id old (run s' es).jobs v'.named found in
        let here : lookup job.id (run s' es).jobs ≡ some old =
          subst (λ i. lookup i (run s' es).jobs ≡ some old) (sym named ∙ same) found in
        let is_job : old ≡ job = let kept = claim_exclusive in ground arith in
        let refused : claimable_job old later sync_id' ≡ false = rw is_job (
          leased-not_claimable job w (add_duration now lock_for) later sync_id' claim_leases.1
            before) in
        cc

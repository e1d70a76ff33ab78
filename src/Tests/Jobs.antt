-- ===== src/Tests/Jobs.antt =====
-- Runs of internal/store.go's `JobMemoryStore`.
use deltaflow.Prelude.{
  ℕ, pos, take, Str, ◌≡◌, ◌≢◌, refl, true, false, Option, none, some, List, [], ◌∷◌, codes, arith,
  lookup, insert, has, str_eq, str_lt, sort_by, insert_by, inr, leb, itoa, trim_space, ◌<◌,
}
use deltaflow.Model.{SyncJob, Result, ok, canceled}
use deltaflow.Ids.{candidate, next_free, next_free_lem}
use deltaflow.Jobs.State.{JobStore, claimable_job, job_lease_owned, new_job_store}
use deltaflow.Jobs.Create.{create, create_locked, create_guard, create_id, map_delta}
use deltaflow.Jobs.Claim.{
  claim_next, claim_next_batch, claim_first, claimable_job_ids, claimable_entries, claim_before,
  claimed_job,
}
use deltaflow.Jobs.Owned.{
  mark_synced, mark_retrying, requeue_claimed, mark_dead, update_owned, to_synced, to_retrying,
  to_requeued, to_dead,
}
use deltaflow.Jobs.Operator.{force_release_expired_lease, update_expired}
use deltaflow.Jobs.Calls.{claims, releases, buries, Event, run, perform}
use deltaflow.Jobs.Edges.{touched}
use deltaflow.Jobs.Invariant.{Inv}
use deltaflow.Jobs.Batches.{ClaimsDone, claim_next_batch-ClaimsDone}
use deltaflow.Jobs.Creation.{Created, create-Created}
use deltaflow.Jobs.Histories.{run-Inv, perform-Inv, outbox_unique}
use deltaflow.Jobs.Leases.{terminal_forever, lease_exclusive}
use deltaflow.Jobs.Claims.{Claimed, claim_next-Claimed, no_double_claim}
use deltaflow.Jobs.Recovery.{claim_recovers}
use deltaflow.Jobs.Retries.{LeftRetrying, retry_waits}
use deltaflow.Jobs.Outcomes.{
  OwnedAnswer, transitions_answer, synced_forever, LeftSynced, IsLater, job_persists,
}
use deltaflow.Tests.Data.{creations, job_1, job_2, manual_asked, two_jobs, two_jobs-Inv}

abbrev pub contacts : Str
contacts = codes "contacts"

abbrev pub worker_a : Str
worker_a = codes "a"

abbrev worker_b : Str
worker_b = codes "b"

-- Worker a claims the first job up to time 130.
abbrev pub claim_a : JobStore × Result (Option SyncJob)
claim_a = claim_next none two_jobs contacts worker_a (pos 100) 30

abbrev pub claimed_1 : SyncJob
claimed_1 = claimed_job job_1 worker_a 30 (pos 100)

claim_a_lem : claim_a ≡ (claim_a.0, ok (some claimed_1))
unfolding claim_next claim_first claimable_job_ids claimable_entries claim_before claimable_job
    lookup insert str_eq str_lt sort_by insert_by
claim_a_lem = refl

claim_a-Inv : Inv claim_a.0
claim_a-Inv =
    unfold perform in perform-Inv (claims contacts worker_a (pos 100)) none 30 two_jobs two_jobs-Inv

-- An operator asks at time 40 for the release of the leased job.
abbrev interference : List Event
interference = record { call = releases (codes "job-1") (codes "stuck"); ctx = none; at = 40 } ∷ []

-- Worker b claims afterwards.
abbrev claim_b : JobStore × Result (Option SyncJob)
claim_b = claim_next none (run claim_a.0 interference) contacts worker_b (pos 100) 50

abbrev claimed_2 : SyncJob
claimed_2 = claimed_job job_2 worker_b 50 (pos 100)

claim_b_lem : claim_b ≡ (claim_b.0, ok (some claimed_2))
unfolding claim_next claim_first claimable_job_ids claimable_entries claim_before claimable_job
    lookup insert str_eq str_lt sort_by insert_by run perform force_release_expired_lease
    update_expired trim_space
claim_b_lem = refl

no_double_claim_example : claimed_2.id ≢ claimed_1.id
no_double_claim_example =
    no_double_claim two_jobs claim_a.0 contacts worker_a (pos 100) 30 claimed_1 two_jobs-Inv refl
      claim_a_lem interference ((omega arith, λ own. own), tt) claim_b.0 contacts worker_b (pos 100)
      50 claimed_2 (omega arith) refl claim_b_lem

claim_recovers_example :
    (k : SyncJob) × ((claim_next none
        (run claim_a.0 interference)
        contacts
        worker_b
        (pos 100)
        130).1
      ≡ ok (some k))
claim_recovers_example =
    claim_recovers two_jobs claim_a.0 contacts worker_a (pos 100) 30 claimed_1 interference worker_b
      (pos 100) 130 two_jobs-Inv refl claim_a_lem ((omega arith, λ own. own), tt) refl (omega arith)

claim_a-lookup : lookup (codes "job-1") claim_a.0.jobs ≡ some claimed_1
unfolding claim_next claim_first claimable_job_ids claimable_entries claim_before claimable_job
    lookup insert str_eq str_lt sort_by insert_by
claim_a-lookup = refl

lease_exclusive_example : lookup (codes "job-1") (run claim_a.0 interference).jobs ≡ some claimed_1
lease_exclusive_example =
    lease_exclusive claim_a.0 interference (codes "job-1") worker_a 130 claimed_1 claim_a-Inv
      claim_a-lookup (record { state = refl; by = refl; until_time = refl })
      ((omega arith, λ own. own), tt)

claim_next-Claimed_example :
    Claimed two_jobs contacts worker_a
      (pos 100)
      30
      (claim_next none two_jobs contacts worker_a (pos 100) 30)
claim_next-Claimed_example =
    claim_next-Claimed two_jobs contacts worker_a (pos 100) 30 two_jobs-Inv refl

claim_next_batch-ClaimsDone_example :
    ClaimsDone two_jobs
      (take 5 (claimable_entries two_jobs 30 contacts))
      worker_a
      (pos 100)
      30
      (claim_next_batch none two_jobs contacts worker_a (pos 5) (pos 100) 30)
claim_next_batch-ClaimsDone_example =
    claim_next_batch-ClaimsDone two_jobs contacts worker_a (pos 5) (pos 100) 30 two_jobs-Inv.unique
      refl refl

run-Inv_example : Inv (run claim_a.0 interference)
run-Inv_example = run-Inv claim_a.0 interference claim_a-Inv

creations_lem : lookup (codes "job-1") (run new_job_store creations).jobs ≡ some job_1
unfolding run perform create create_locked create_guard create_id map_delta next_free candidate itoa
    has insert lookup str_eq
creations_lem = refl

outbox_unique_example : codes "job-1" ≡ codes "job-1"
outbox_unique_example =
    outbox_unique creations (codes "delta-1") (codes "job-1") (codes "job-1") job_1 job_1
      creations_lem creations_lem (refl, refl) (refl, refl)

create-Created_example : Created two_jobs manual_asked 40 (create none two_jobs manual_asked 40)
create-Created_example = create-Created two_jobs manual_asked 40 refl

sync_a_lem : (mark_synced none claim_a.0 (codes "job-1") worker_a true 60).1 ≡ none
unfolding mark_synced update_owned job_lease_owned claim_next claim_first claimable_job_ids
    claimable_entries claim_before claimable_job lookup insert str_eq str_lt sort_by insert_by
sync_a_lem = refl

synced_forever_example :
    (job : SyncJob) × (job' : SyncJob) × (lookup (codes "job-1") claim_a.0.jobs ≡ some job)
    × (job_lease_owned job 60 worker_a ≡ true)
    × (lookup
          (codes "job-1")
          (run (mark_synced none claim_a.0 (codes "job-1") worker_a true 60).0 interference).jobs
        ≡ some job')
    × LeftSynced job job' true 60
synced_forever_example =
    synced_forever claim_a.0 (codes "job-1") worker_a true 60 interference claim_a-Inv sync_a_lem

-- The first job, once it is dead.
abbrev buried : JobStore
buried = (mark_dead none claim_a.0 (codes "job-1") worker_a (some canceled) 60).0

abbrev dead_1 : SyncJob
dead_1 = touched (to_dead (some canceled) claimed_1 60) 60

buried-lookup : lookup (codes "job-1") buried.jobs ≡ some dead_1
unfolding mark_dead update_owned job_lease_owned claim_next claim_first claimable_job_ids
    claimable_entries claim_before claimable_job lookup insert str_eq str_lt sort_by insert_by
buried-lookup = refl

terminal_forever_example : lookup (codes "job-1") (run buried interference).jobs ≡ some dead_1
terminal_forever_example =
    terminal_forever buried interference (codes "job-1") dead_1
      (unfold perform in
        perform-Inv (buries (codes "job-1") worker_a (some canceled)) none 60 claim_a.0 claim_a-Inv)
      buried-lookup (inr refl)

transitions_answer_example :
    OwnedAnswer claim_a.0
      (codes "job-1")
      worker_b
      (to_synced false)
      60
      (mark_synced none claim_a.0 (codes "job-1") worker_b false 60)
    × OwnedAnswer claim_a.0
        (codes "job-1")
        worker_b
        (to_retrying none 90)
        60
        (mark_retrying none claim_a.0 (codes "job-1") worker_b none 90 60)
    × OwnedAnswer claim_a.0
        (codes "job-1")
        worker_b
        (to_requeued none 90)
        60
        (requeue_claimed none claim_a.0 (codes "job-1") worker_b none 90 60)
    × OwnedAnswer claim_a.0
        (codes "job-1")
        worker_b
        (to_dead none)
        60
        (mark_dead none claim_a.0 (codes "job-1") worker_b none 60)
transitions_answer_example = transitions_answer claim_a.0 (codes "job-1") worker_b false none 90 60

retry_a_lem : (mark_retrying none claim_a.0 (codes "job-1") worker_a none 90 60).1 ≡ none
unfolding mark_retrying update_owned job_lease_owned claim_next claim_first claimable_job_ids
    claimable_entries claim_before claimable_job lookup insert str_eq str_lt sort_by insert_by
retry_a_lem = refl

retry_waits_example :
    (job : SyncJob) × (job' : SyncJob) × (lookup (codes "job-1") claim_a.0.jobs ≡ some job)
    × (job_lease_owned job 60 worker_a ≡ true)
    × (lookup
          (codes "job-1")
          (run
            (mark_retrying none claim_a.0 (codes "job-1") worker_a none 90 60).0
            interference).jobs
        ≡ some job')
    × LeftRetrying job job' 90
    × (claimable_job job' 95 job.sync_id ≡ leb 90 95)
retry_waits_example =
    retry_waits claim_a.0 (codes "job-1") worker_a none 90 60 95 interference claim_a-Inv
      retry_a_lem (omega arith, tt)

job_persists_example :
    (job : SyncJob) × (lookup (codes "job-1") (run claim_a.0 interference).jobs ≡ some job)
    × IsLater claimed_1 job
job_persists_example =
    job_persists claim_a.0 interference (codes "job-1") claimed_1 claim_a-Inv claim_a-lookup

next_free_lem_example :
    (n : ℕ) × (next_free 3 (codes "job-") 0 two_jobs.jobs ≡ some (n, candidate (codes "job-") n))
    × (0 < n)
    × (has (candidate (codes "job-") n) two_jobs.jobs ≡ false)
next_free_lem_example = next_free_lem 3 (codes "job-") 0 two_jobs.jobs (omega arith)

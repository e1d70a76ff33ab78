-- ===== src/Jobs/Edges.antt =====
-- The state diagram of a sync job in internal/store.go: an edge for each write to a job of the map.
use deltaflow.Prelude.{ℤ, Str, Map, Bool, true, false, ◌≡◌, Option, some, lookup, insert}
use deltaflow.Model.{Time, SyncJob, Error, is_processing}
use deltaflow.Jobs.State.{job_lease_owned, claimable_job, is_lease_live}
use deltaflow.Jobs.Claim.{claimed_job}
use deltaflow.Jobs.Owned.{to_renewed, to_synced, to_retrying, to_requeued, to_dead}
use deltaflow.Jobs.Calls.{Call, claims, claims_batch, renews, syncs, retries, requeues, buries}
use deltaflow.Jobs.Operator.{to_released, to_operator_requeued}

abbrev pub touched : SyncJob → Time → SyncJob
touched job now = record job { updated_at = now }

-- A claim of jobs for a worker.
abbrev pub IsClaimBy : Str → Call → Type 0
IsClaimBy w (claims sync_id w' lock_for) = w' ≡ w
IsClaimBy w (claims_batch sync_id w' limit lock_for) = w' ≡ w
IsClaimBy w _ = ⊥

-- The write that a call makes to the job of an identifier, with what the code has tested before it.
pub data Edge (now : Time) (c : Call) (id : Str) (job job' : SyncJob) : Type 0 where
  claim :
      (w : Str) (lock_for : ℤ)
      → IsClaimBy w c
      → claimable_job job now job.sync_id ≡ true
      → job' ≡ claimed_job job w now lock_for
      → Edge now c id job job'
  renew :
      (w : Str) (lock_for : ℤ)
      → c ≡ renews id w lock_for
      → job_lease_owned job now w ≡ true
      → job' ≡ touched (to_renewed lock_for job now) now
      → Edge now c id job job'
  sync :
      (w : Str) (ghost : Bool)
      → c ≡ syncs id w ghost
      → job_lease_owned job now w ≡ true
      → job' ≡ touched (to_synced ghost job now) now
      → Edge now c id job job'
  retry :
      (w : Str) (e : Option Error) (next : Time)
      → c ≡ retries id w e next
      → job_lease_owned job now w ≡ true
      → job' ≡ touched (to_retrying e next job now) now
      → Edge now c id job job'
  requeue :
      (w : Str) (e : Option Error) (next : Time)
      → c ≡ requeues id w e next
      → job_lease_owned job now w ≡ true
      → job' ≡ touched (to_requeued e next job now) now
      → Edge now c id job job'
  bury :
      (w : Str) (e : Option Error)
      → c ≡ buries id w e
      → job_lease_owned job now w ≡ true
      → job' ≡ touched (to_dead e job now) now
      → Edge now c id job job'
  release :
      (reason : Str)
      → is_processing job.state ≡ true
      → is_lease_live job.locked_until now ≡ false
      → job' ≡ touched (to_released job reason) now
      → Edge now c id job job'
  requeue_expired :
      (reason : Str) (next : Time)
      → is_processing job.state ≡ true
      → is_lease_live job.locked_until now ≡ false
      → job' ≡ touched (to_operator_requeued next job reason) now
      → Edge now c id job job'

-- The writes of one call, one after the other.
pub data Writes (now : Time) (c : Call) : Map SyncJob → Map SyncJob → Type 0 where
  done : {m : Map SyncJob} → Writes now c m m
  write :
      {m n : Map SyncJob} (id : Str) (job job' : SyncJob)
      → lookup id m ≡ some job
      → Edge now c id job job'
      → Writes now c (insert id job' m) n
      → Writes now c m n

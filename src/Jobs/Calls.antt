-- ===== src/Jobs/Calls.antt =====
-- A call of any operation of internal/store.go's `JobMemoryStore` that changes it, and histories of
-- such calls by any number of workers and operators. The store's mutex makes each call one step.
use deltaflow.Prelude.{ℤ, Str, Bool, Option, List, [], ◌∷◌}
use deltaflow.Model.{Time, SyncJob, Ctx, Error}
use deltaflow.Jobs.State.{JobStore}
use deltaflow.Jobs.Create.{create}
use deltaflow.Jobs.Claim.{claim_next, claim_next_batch}
use deltaflow.Jobs.Owned.{renew_lease, mark_synced, mark_retrying, requeue_claimed, mark_dead}
use deltaflow.Jobs.Operator.{force_release_expired_lease, requeue_expired_lease}

pub data Call : Type 0 where
  creates : SyncJob → Call
  claims : (sync_id worker_id : Str) → ℤ → Call
  claims_batch : (sync_id worker_id : Str) → ℤ → ℤ → Call
  renews : (job_id worker_id : Str) → ℤ → Call
  syncs : (job_id worker_id : Str) → Bool → Call
  retries : (job_id worker_id : Str) → Option Error → Time → Call
  requeues : (job_id worker_id : Str) → Option Error → Time → Call
  buries : (job_id worker_id : Str) → Option Error → Call
  releases : (job_id : Str) → Str → Call
  requeues_expired : (job_id : Str) → Time → Str → Call

-- The store after a call, which is made at a time under a context.
unfoldable pub perform : Call → Ctx → Time → JobStore → JobStore
perform (creates job) ctx now s = (create ctx s job now).0
perform (claims sync_id w lock_for) ctx now s = (claim_next ctx s sync_id w lock_for now).0
perform (claims_batch sync_id w limit lock_for) ctx now s =
    (claim_next_batch ctx s sync_id w limit lock_for now).0
perform (renews id w lock_for) ctx now s = (renew_lease ctx s id w lock_for now).0
perform (syncs id w ghost) ctx now s = (mark_synced ctx s id w ghost now).0
perform (retries id w e next) ctx now s = (mark_retrying ctx s id w e next now).0
perform (requeues id w e next) ctx now s = (requeue_claimed ctx s id w e next now).0
perform (buries id w e) ctx now s = (mark_dead ctx s id w e now).0
perform (releases id reason) ctx now s = (force_release_expired_lease ctx s id reason now).0
perform (requeues_expired id next reason) ctx now s =
    (requeue_expired_lease ctx s id next reason now).0

pub record Event : Type 0 where
  pub call : Call
  pub ctx : Ctx
  pub at : Time

unfoldable pub run : JobStore → List Event → JobStore
unfolding perform
run s [] = s
run s (e ∷ es) = run (perform e.call e.ctx e.at s) es

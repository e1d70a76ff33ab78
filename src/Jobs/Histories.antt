-- ===== src/Jobs/Histories.antt =====
-- What holds of internal/store.go's `JobMemoryStore` after any history of calls.
use deltaflow.Prelude.{ℕ, Str, Map, ◌≡◌, sym, ◌∙◌, some, List, [], ◌∷◌, lookup, arith}
use deltaflow.Model.{Time, SyncJob, Ctx}
use deltaflow.Jobs.State.{JobStore, Telemetry, new_job_store}
use deltaflow.Jobs.Calls.{Call, creates, perform, Event, run}
use deltaflow.Jobs.Invariant.{Inv, IsOutboxJobOf, new_job_store-Inv, Writes-Inv}
use deltaflow.Jobs.Performs.{Performs, perform-Performs}
use deltaflow.Jobs.Creation.{create-Inv}

with_fields :
    (n n' : ℕ) (b b' : Map Str) (jobs : Map SyncJob) (t : List Telemetry)
    → n' ≡ n
    → b' ≡ b
    → Inv (record { next_id = n; jobs = jobs; job_by_delta = b; telemetry = t })
    → Inv (record { next_id = n'; jobs = jobs; job_by_delta = b'; telemetry = t })
with_fields n n' b b' jobs t e f v = rw (e, f) v

retelemeter : (s : JobStore) (t : List Telemetry) → Inv s → Inv (record s { telemetry = t })
retelemeter s t i = record {
  unique = i.unique;
  named = i.named;
  free = i.free;
  mapped = i.mapped;
  covered = i.covered;
}

pub Performs-Inv : {now : Time} {c : Call} (s s' : JobStore) → Performs now c s s' → Inv s → Inv s'
Performs-Inv s s' p v =
    with_fields s.next_id s'.next_id s.job_by_delta s'.job_by_delta s'.jobs s'.telemetry p.next_id
      p.job_by_delta
      (Writes-Inv s.next_id s.job_by_delta s'.telemetry p.writes (retelemeter s s'.telemetry v))

-- Every call, under any context and at any time, keeps the invariant.
pub perform-Inv :
    (c : Call) (ctx : Ctx) (now : Time) (s : JobStore) → Inv s → Inv (perform c ctx now s)
unfolding perform
perform-Inv (creates job) ctx now s v = create-Inv ctx s job now v
perform-Inv c ctx now s v =
    Performs-Inv s (perform c ctx now s) (perform-Performs c ctx now s (λ h. h) v.unique) v

-- Every history of calls, under any contexts and at any times, keeps the job store well formed: keyed
-- by the jobs' identifiers, with the numbers ahead free, and indexed by the outbox jobs' deltas.
pub run-Inv : (s : JobStore) (es : List Event) → Inv s → Inv (run s es)
unfolding run
run-Inv s [] v = v
run-Inv s (e ∷ es) v = run-Inv (perform e.call e.ctx e.at s) es (perform-Inv e.call e.ctx e.at s v)

-- After any history from the empty store, two outbox jobs of the same delta are the same job.
pub outbox_unique :
    (es : List Event) (d i k : Str) (job other : SyncJob)
    → lookup i (run new_job_store es).jobs ≡ some job
    → lookup k (run new_job_store es).jobs ≡ some other
    → IsOutboxJobOf d job
    → IsOutboxJobOf d other
    → i ≡ k
outbox_unique es d i k job other at at' of of' =
    let v = run-Inv new_job_store es new_job_store-Inv in
    let (e, given, mapped) = v.covered i job at of.0 in
    let (e', given', mapped') = v.covered k other at' of'.0 in
    let same : some d ≡ some e = sym of.1 ∙ given in
    let same' : some d ≡ some e' = sym of'.1 ∙ given' in
    let eq : d ≡ e = ground arith in
    let eq' : d ≡ e' = ground arith in
    let hit : lookup d (run new_job_store es).job_by_delta ≡ some i = rw eq mapped in
    let hit' : lookup d (run new_job_store es).job_by_delta ≡ some k = rw eq' mapped' in
    ground arith

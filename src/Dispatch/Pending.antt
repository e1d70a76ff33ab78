-- ===== src/Dispatch/Pending.antt =====
-- internal/dispatcher.go: `DispatchPending`. Both stores are locked for the whole call, so it is one
-- step. Log lines are left out.
use deltaflow.Prelude.{
  ℕ, suc, ℤ, Str, Map, Bool, true, false, if◌then◌else◌, not, none, some, List, [], ◌∷◌, map, has,
  insert, lookup, length, codes, take, is_nonpos, to_count,
}
use deltaflow.Model.{
  Time, Delta, SyncJob, outbox, JobState, default_max_attempts, is_dispatched, Ctx, Result, ok, err,
  nil_dereference, diverges, ◌>>=◌,
}
use deltaflow.Ids.{next_free}
use deltaflow.Deltas.State.{DeltaStore}
use deltaflow.Deltas.Pull.{pending_delta_ids_for_sync, to_dispatched}
use deltaflow.Jobs.State.{JobStore}

pub record DispatchStore : Type 0 where
  pub delta_store : DeltaStore
  pub job_store : JobStore

-- The job of a delta, as staged.
abbrev pub outbox_job : Delta → Str → Time → SyncJob
outbox_job delta job_id now = record {
  id = job_id;
  sync_id = delta.sync_id;
  delta_id = some delta.id;
  origin = outbox;
  projection_type = delta.projection_type;
  projection_key = delta.projection_key;
  projection_key_hash = delta.projection_key_hash;
  state = JobState.pending;
  attempt_count = 0;
  max_attempts = default_max_attempts;
  last_error = none;
  last_error_code = none;
  available_at = now;
  locked_by = none;
  locked_until = none;
  ghost_detected = false;
  synced_at = none;
  dead_at = none;
  created_at = now;
  updated_at = now;
}

-- `nextID`, `stagedMapped` and `staged` after the staging loop.
pub record Plan : Type 0 where
  pub next_id : ℕ
  pub mapped : List Str
  pub staged : List (Str × SyncJob)

abbrev pub add_mapped : Str → Plan → Plan
add_mapped id p = record p { mapped = id ∷ p.mapped }

abbrev pub add_staged : Str → SyncJob → Plan → Plan
add_staged id job p = record p { staged = (id, job) ∷ p.staged }

-- The staging loop, which reads the stores and changes neither.
unfoldable pub stage : JobStore → Map Delta → List Str → ℕ → Time → Result Plan
stage s deltas [] next now = ok (record { next_id = next; mapped = []; staged = [] })
stage s deltas (id ∷ ids) next now =
    let skip = stage s deltas ids next now in
    if has id s.job_by_delta
    then skip >>= (λ p. ok (add_mapped id p))
    else elim (next_free (suc (length s.jobs)) (codes "job-") next s.jobs) [
      | none ↦ diverges
      | some (n, job_id) ↦ elim (lookup id deltas) [
        | none ↦ nil_dereference
        | some delta ↦
            stage s deltas ids n now >>= (λ p. ok (add_staged id (outbox_job delta job_id now) p))
      ]
    ]

abbrev pub put_delta : DispatchStore → Str → Delta → DispatchStore
put_delta d id delta = record {
  delta_store = record d.delta_store { deltas = insert id delta d.delta_store.deltas };
  job_store = d.job_store;
}

-- The loop over `stagedMapped`; the Boolean is false where it met a nil delta.
unfoldable pub mark_mapped : DispatchStore → List Str → Time → DispatchStore × Bool
mark_mapped d [] now = (d, true)
mark_mapped d (id ∷ ids) now = elim (lookup id d.delta_store.deltas) [
  | none ↦ (d, false)
  | some delta ↦
      mark_mapped
        (if is_dispatched delta.state then d else put_delta d id (to_dispatched delta now)) ids now
]

abbrev pub put_job : DispatchStore → Str → SyncJob → DispatchStore
put_job d id job = record {
  delta_store = d.delta_store;
  job_store = record d.job_store {
    jobs = insert job.id job d.job_store.jobs;
    job_by_delta = insert id job.id d.job_store.job_by_delta;
  };
}

-- The loop over `staged`.
unfoldable pub store_staged : DispatchStore → List (Str × SyncJob) → Time → DispatchStore × Bool
store_staged d [] now = (d, true)
store_staged d ((id, job) ∷ items) now = elim (lookup id d.delta_store.deltas) [
  | none ↦ (put_job d id job, false)
  | some delta ↦ store_staged (put_delta (put_job d id job) id (to_dispatched delta now)) items now
]

abbrev pub set_next_id : DispatchStore → ℕ → DispatchStore
set_next_id d n = record {
  delta_store = d.delta_store;
  job_store = record d.job_store { next_id = n };
}

-- The two loops that write, and the jobs returned.
unfoldable pub apply_plan : DispatchStore → Plan → Time → DispatchStore × Result (List SyncJob)
unfolding mark_mapped store_staged
apply_plan d p now =
    let (d₁, marked) = mark_mapped d p.mapped now in
    let (d₂, stored) = store_staged d₁ p.staged now in
    if not marked
    then (d₁, nil_dereference)
    else if not stored
    then (d₂, nil_dereference)
    else (set_next_id d₂ p.next_id, ok (map (λ i. i.1) p.staged))

-- The identifiers of one dispatch.
unfoldable pub dispatch_ids : DispatchStore → Str → ℤ → List Str
unfolding pending_delta_ids_for_sync
dispatch_ids d sync_id limit =
    take (to_count limit) (pending_delta_ids_for_sync d.delta_store.deltas sync_id)

-- `DispatchPending`
unfoldable pub dispatch_pending :
    Ctx → DispatchStore → Str → ℤ → Time → DispatchStore × Result (List SyncJob)
unfolding dispatch_ids stage apply_plan
dispatch_pending (some e) d sync_id limit now = (d, err e)
dispatch_pending none d sync_id limit now =
    if is_nonpos limit
    then (d, ok [])
    else elim (stage d.job_store d.delta_store.deltas (dispatch_ids d sync_id limit)
        d.job_store.next_id now) [
          | ok p ↦ apply_plan d p now
          | err e ↦ (d, err e)
          | nil_dereference ↦ (d, nil_dereference)
          | diverges ↦ (d, diverges)
        ]

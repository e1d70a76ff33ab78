-- ===== src/Dispatch/Staging.antt =====
-- internal/dispatcher.go: about the plan that the staging loop of `DispatchPending` makes.
use deltaflow.Prelude.{
  ℕ, suc, Str, Map, true, false, ◌≡◌, refl, ◌<◌, List, [], ◌∷◌, map, length, All, IsEntry, has,
  codes, arith, Bool-cases, inl, inr,
}
use deltaflow.Model.{Time, Delta, ok}
use deltaflow.Ids.{candidate, next_free_total, next_free_fresh}
use deltaflow.Jobs.State.{JobStore}
use deltaflow.Dispatch.Pending.{outbox_job, Plan, add_mapped, add_staged, stage}

-- The plan for some entries of the delta map, from a number on: a delta that has a job is to be
-- marked, and any other gets a job under a number above those before.
pub data IsPlan (s : JobStore) (now : Time) : ℕ → List (Str × Delta) → Plan → Type 0 where
  plans_nothing :
      (next : ℕ) → IsPlan s now next [] (record { next_id = next; mapped = []; staged = [] })
  plans_mark :
      {next : ℕ} {es : List (Str × Delta)} {p : Plan} (id : Str) (delta : Delta)
      → has id s.job_by_delta ≡ true
      → IsPlan s now next es p
      → IsPlan s now next ((id, delta) ∷ es) (add_mapped id p)
  plans_job :
      {next : ℕ} {es : List (Str × Delta)} {p : Plan} (id : Str) (delta : Delta) (n : ℕ)
      → has id s.job_by_delta ≡ false
      → next < n
      → IsPlan s now n es p
      → IsPlan s now next
          ((id, delta) ∷ es)
          (add_staged id (outbox_job delta (candidate (codes "job-") n) now) p)

pub stage-IsPlan :
    (s : JobStore) (deltas : Map Delta) (es : List (Str × Delta)) (next : ℕ) (now : Time)
    → All (IsEntry deltas) es
    → (p : Plan) × (stage s deltas (map (λ e. e.0) es) next now ≡ ok p) × IsPlan s now next es p
unfolding stage
stage-IsPlan s deltas [] next now h = (_, refl, plans_nothing next)
stage-IsPlan s deltas ((id, delta) ∷ es) next now h = elim (Bool-cases (has id s.job_by_delta)) [
  | inl there ↦
      let (p, planned, is) = stage-IsPlan s deltas es next now h.1 in
      (add_mapped id p, rw (there, planned) refl, plans_mark id delta there is)
  | inr absent ↦
      let (r, found) =
        next_free_total (suc (length s.jobs)) (codes "job-") next s.jobs (omega arith) in
      let (later, named, _) =
        next_free_fresh (suc (length s.jobs)) (codes "job-") next s.jobs found in
      let (p, planned, is) = stage-IsPlan s deltas es r.0 now h.1 in
      (
        add_staged id (outbox_job delta (candidate (codes "job-") r.0) now) p,
        rw (absent, found, h.0, planned, named) refl,
        plans_job id delta r.0 absent later is,
      )
]

-- ===== src/Worker/Renewals.antt =====
-- pkg/deltaflow/worker.go: what the heartbeat of a run leaves, and a write under the lease that it renews.
use deltaflow.Prelude.{
  List, [], ◌∷◌, ◌++◌, All, All-append, Option-cases, ◌∙◌, ap, insert, ℤ, Str, true, ◌≡◌, refl,
  Option, none, some, lookup, inl, inr,
}
use deltaflow.Model.{Time, SyncJob, Error}
use deltaflow.Jobs.State.{JobStore, job_lease_owned}
use deltaflow.Jobs.Owned.{renew_lease}
use deltaflow.Jobs.Edges.{touched}
use deltaflow.Jobs.Calls.{renews, Event, perform, run}
use deltaflow.Jobs.Outcomes.{OwnedAnswer, missing, refused, applied}
use deltaflow.Worker.Finish.{Tick, heartbeat}
use deltaflow.Worker.Process.{heartbeat_on}

-- A renewal of the worker's lease on the job.
abbrev pub IsRenewal : Str → Str → ℤ → Event → Type 0
IsRenewal id w lock_for e = e.call ≡ renews id w lock_for

-- The store after renewals of the worker's lease on the job.
abbrev pub IsRenewed : JobStore → Str → Str → ℤ → JobStore → Type 0
IsRenewed s id w lock_for s' =
    (beats : List Event) × All (IsRenewal id w lock_for) beats × (s' ≡ run s beats)

-- From one store to another, the worker has renewed its lease on the job any number of times; then it
-- held a live lease on the job as it stood there, and `fn` of that job was written.
pub record IsHeldWrite (s s' : JobStore) (id w : Str) (lock_for : ℤ) (fn : SyncJob → Time → SyncJob)
    (now : Time) : Type 0 where
  pub before : JobStore
  pub renewed : IsRenewed s id w lock_for before
  pub stored : SyncJob
  pub found : lookup id before.jobs ≡ some stored
  pub held : job_lease_owned stored now w ≡ true
  pub written : s'.jobs ≡ insert id (touched (fn stored now) now) before.jobs

run-append : (s : JobStore) (es fs : List Event) → run (run s es) fs ≡ run s (es ++ fs)
unfolding run
run-append s [] fs = refl
run-append s (e ∷ es) fs = run-append (perform e.call e.ctx e.at s) es fs

pub heartbeat-IsRenewed :
    (s : JobStore) (id w : Str) (lock_for : ℤ) (ts : List Tick)
    → IsRenewed s id w lock_for (heartbeat s id w lock_for ts).0
unfolding heartbeat run perform
heartbeat-IsRenewed s id w lock_for [] = ([], tt, refl)
heartbeat-IsRenewed s id w lock_for (t ∷ ts) =
    let beat : Event = record { call = renews id w lock_for; ctx = t.ctx; at = t.at } in
    elim (Option-cases (renew_lease t.ctx s id w lock_for t.at).1) [
      | inl fine ↦
          let (beats, all, same) =
            heartbeat-IsRenewed (renew_lease t.ctx s id w lock_for t.at).0 id w lock_for ts in
          (beat ∷ beats, (refl, all), rw (fine, heartbeat) same)
      | inr (e, failed) ↦ (beat ∷ [], (refl, tt), rw (failed, heartbeat) refl)
    ]

IsRenewed-trans :
    (s s' s'' : JobStore) (id w : Str) (lock_for : ℤ)
    → IsRenewed s id w lock_for s'
    → IsRenewed s' id w lock_for s''
    → IsRenewed s id w lock_for s''
IsRenewed-trans s s' s'' id w lock_for (es, all, same) (fs, all', same') = (
  es ++ fs,
  All-append (IsRenewal id w lock_for) es fs all all',
  same' ∙ ap (λ x. run x fs) same ∙ run-append s es fs,
)

pub heartbeat_on-IsRenewed :
    (s : JobStore) (b : JobStore × Option Error) (id w : Str) (lock_for : ℤ) (ts : List Tick)
    → IsRenewed s id w lock_for b.0
    → IsRenewed s id w lock_for (heartbeat_on b id w lock_for ts).0
heartbeat_on-IsRenewed s (s', none) id w lock_for ts r =
    IsRenewed-trans s s' _ id w lock_for r (heartbeat-IsRenewed s' id w lock_for ts)
heartbeat_on-IsRenewed s (s', some e) id w lock_for ts r = r

pub OwnedAnswer-IsHeldWrite :
    {s s' : JobStore} {id w : Str} {lock_for : ℤ} {fn : SyncJob → Time → SyncJob} {now : Time}
    {r : JobStore × Option Error}
    → IsRenewed s id w lock_for s'
    → OwnedAnswer s' id w fn now r
    → r.1 ≡ none
    → IsHeldWrite s r.0 id w lock_for fn now
OwnedAnswer-IsHeldWrite renewed (missing gone e same) h = cc
OwnedAnswer-IsHeldWrite renewed (refused job found other e same) h = cc
OwnedAnswer-IsHeldWrite {s' = s'} renewed (applied job found mine e jobs) h = record {
  before = s';
  renewed = renewed;
  stored = job;
  found = found;
  held = mine;
  written = jobs;
}

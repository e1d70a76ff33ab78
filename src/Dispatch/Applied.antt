-- ===== src/Dispatch/Applied.antt =====
-- internal/dispatcher.go: about the loops of `DispatchPending` that write, for a plan of the staging
-- loop.
use deltaflow.Prelude.{
  ℕ, Str, Map, Bool, true, false, if◌then◌else◌, ◌≡◌, refl, ◌∙◌, ap, ◌<◌, List, [], ◌∷◌, All,
  All-map, sym, subst, has-insert_old, Distinct, has, has-insert, has-true, lookup, insert, codes,
  arith, Bool-cases, inl, inr, some, str_eq,
}
use deltaflow.Model.{Time, Delta, SyncJob, is_dispatched}
use deltaflow.Ids.{candidate}
use deltaflow.Deltas.Invariant as D
use deltaflow.Jobs.State.{JobStore}
use deltaflow.Jobs.Invariant as J
use deltaflow.Jobs.Insertion.{raise_next-Inv, insert_outbox-Inv}
use deltaflow.Deltas.Pull.{to_dispatched}
use deltaflow.Dispatch.Pending.{
  DispatchStore, outbox_job, Plan, mark_mapped, store_staged, put_delta, put_job,
}
use deltaflow.Dispatch.Staging.{IsPlan, plans_nothing, plans_mark, plans_job}

-- The two stores together.
pub record Inv (d : DispatchStore) : Type 0 where
  pub deltas : D.Inv d.delta_store
  pub jobs : J.Inv d.job_store

-- What the loop over the staged jobs needs of the stores, for the deltas still to come.
pub record IsReady (s : JobStore) (es : List (Str × Delta)) (next : ℕ) (d : DispatchStore)
    : Type 0 where
  pub deltas : D.Inv d.delta_store
  pub jobs : J.Inv (record d.job_store { next_id = next })
  pub named : All (λ e. e.1.id ≡ e.0) es
  pub distinct : Distinct es
  pub unmapped :
      All (λ e. has e.0 s.job_by_delta ≡ false → has e.0 d.job_store.job_by_delta ≡ false) es
  pub present : All (λ e. has e.0 d.delta_store.deltas ≡ true) es

-- One round of the loop over the staged jobs.
abbrev round : DispatchStore → Str → Delta → SyncJob → Time → DispatchStore
round d id delta job now = put_delta (put_job d id job) id (to_dispatched delta now)

tail-IsReady :
    {s : JobStore} {es : List (Str × Delta)} {next : ℕ} {d : DispatchStore} {e : Str × Delta}
    → IsReady s (e ∷ es) next d
    → IsReady s es next d
tail-IsReady r = record {
  deltas = r.deltas;
  jobs = r.jobs;
  named = r.named.1;
  distinct = r.distinct.1;
  unmapped = r.unmapped.1;
  present = r.present.1;
}

All-both :
    {A : Type 0} {P Q R : A → Type 0} (xs : List A)
    → ((x : A) → P x → Q x → R x)
    → All P xs
    → All Q xs
    → All R xs
All-both [] f p q = tt
All-both (x ∷ xs) f p q = (f x p.0 q.0, All-both xs f p.1 q.1)

-- A write at another key changes no membership.
kept :
    {V : Type 0} (k j : Str) (v : V) (m : Map V) (b : Bool)
    → str_eq k j ≡ false
    → has j m ≡ b
    → has j (insert k v m) ≡ b
kept k j v m b apart h = rw (has-insert k j v m, apart) h

round-IsReady :
    {s : JobStore} {es : List (Str × Delta)} {next : ℕ} {d : DispatchStore} (id : Str)
    (delta stored : Delta) (n : ℕ) (now : Time)
    → has id s.job_by_delta ≡ false
    → next < n
    → lookup id d.delta_store.deltas ≡ some stored
    → IsReady s ((id, delta) ∷ es) next d
    → IsReady s es n (round d id stored (outbox_job delta (candidate (codes "job-") n) now) now)
round-IsReady {s} {es} {next} {d} id delta stored n now absent later found r =
    let c = candidate (codes "job-") n in
    let job = outbox_job delta c now in
    let s' = record d.job_store { next_id = next } in
    record {
      deltas =
          D.write-Inv d.delta_store id stored (to_dispatched stored now) r.deltas found refl refl;
      jobs =
          insert_outbox-Inv (record s' { next_id = n }) (raise_next-Inv s' n r.jobs (omega arith)) c
            n job (r.jobs.free n later) refl refl (omega arith) id (refl, ap some r.named.0)
            (r.unmapped.0 absent);
      named = r.named.1;
      distinct = r.distinct.1;
      unmapped =
          All-both es
            (λ e apart f gone. kept id e.0 c d.job_store.job_by_delta false apart (f gone))
            r.distinct.0 r.unmapped.1;
      present =
          All-both es
            (λ e apart there.
              kept id e.0 (to_dispatched stored now) d.delta_store.deltas true apart there)
            r.distinct.0 r.present.1;
    }

store_staged-cons :
    (d : DispatchStore) (id : Str) (job : SyncJob) (stored : Delta) (items : List (Str × SyncJob))
    (now : Time)
    → lookup id d.delta_store.deltas ≡ some stored
    → store_staged d ((id, job) ∷ items) now ≡ store_staged (round d id stored job now) items now
unfolding store_staged
store_staged-cons d id job stored items now found = rw (found, store_staged)

-- The loop has run to its end and left both stores well formed.
abbrev pub IsStored : ℕ → DispatchStore × Bool → Type 0
IsStored n r = (r.1 ≡ true) × D.Inv r.0.delta_store × J.Inv (record r.0.job_store { next_id = n })

-- The loop over the staged jobs of a plan runs to its end and keeps the invariants.
pub store_staged-IsReady :
    {s : JobStore} {now : Time} {es : List (Str × Delta)} {next : ℕ} {p : Plan} (d : DispatchStore)
    → IsPlan s now next es p
    → IsReady s es next d
    → IsStored p.next_id (store_staged d p.staged now)
unfolding store_staged
store_staged-IsReady d (plans_nothing next) r = (refl, r.deltas, r.jobs)
store_staged-IsReady d (plans_mark id delta there is) r = store_staged-IsReady d is (tail-IsReady r)
store_staged-IsReady {now = now} {p = q} d (plans_job {p = p} id delta n absent later is) r =
    let (stored, found) = has-true id d.delta_store.deltas r.present.0 in
    let job = outbox_job delta (candidate (codes "job-") n) now in
    subst (IsStored p.next_id) (sym (store_staged-cons d id job stored p.staged now found)) (
      store_staged-IsReady (round d id stored job now) is
        (round-IsReady id delta stored n now absent later found r))

mark_mapped-cons :
    (d : DispatchStore) (id : Str) (stored : Delta) (ids : List Str) (now : Time)
    → lookup id d.delta_store.deltas ≡ some stored
    → mark_mapped d (id ∷ ids) now
      ≡ mark_mapped
          (if is_dispatched stored.state then d else put_delta d id (to_dispatched stored now))
          ids
          now
unfolding mark_mapped
mark_mapped-cons d id stored ids now found = rw (found, mark_mapped)

-- The loop over the marked deltas: it runs to its end, and only marks.
pub record IsMarked (d : DispatchStore) (r : DispatchStore × Bool) : Type 0 where
  pub ended : r.1 ≡ true
  pub deltas : D.Inv r.0.delta_store
  pub jobs : r.0.job_store ≡ d.job_store
  pub kept : (id : Str) → has id d.delta_store.deltas ≡ true → has id r.0.delta_store.deltas ≡ true

pub mark_mapped-IsMarked :
    {s : JobStore} {now : Time} {es : List (Str × Delta)} {next : ℕ} {p : Plan} (d : DispatchStore)
    → IsPlan s now next es p
    → D.Inv d.delta_store
    → All (λ e. has e.0 d.delta_store.deltas ≡ true) es
    → IsMarked d (mark_mapped d p.mapped now)
unfolding mark_mapped
mark_mapped-IsMarked d (plans_nothing next) v h = record {
  ended = refl;
  deltas = v;
  jobs = refl;
  kept = λ id g. g;
}
mark_mapped-IsMarked d (plans_job id delta n absent later is) v h = mark_mapped-IsMarked d is v h.1
mark_mapped-IsMarked {now = now} d (plans_mark {es = es} {p = p} id delta there is) v h =
    let (stored, found) = has-true id d.delta_store.deltas h.0 in
    elim (Bool-cases (is_dispatched stored.state)) [
      | inl marked ↦
          subst (IsMarked d)
            (sym (
              mark_mapped-cons d id stored p.mapped now found
              ∙ ap
                  (λ b.
                    mark_mapped (if b then d else put_delta d id (to_dispatched stored now))
                      p.mapped now)
                  marked))
            (mark_mapped-IsMarked d is v h.1)
      | inr fresh ↦
          let d' = put_delta d id (to_dispatched stored now) in
          let keep = λ (i : Str) (g : has i d.delta_store.deltas ≡ true).
            has-insert_old id i (to_dispatched stored now) stored d.delta_store.deltas found ∙ g in
          let rest =
            mark_mapped-IsMarked d' is
              (D.write-Inv d.delta_store id stored (to_dispatched stored now) v found refl refl)
              (All-map (λ e. has e.0 d.delta_store.deltas ≡ true)
                (λ e. has e.0 d'.delta_store.deltas ≡ true) es (λ e g. keep e.0 g) h.1) in
          subst (IsMarked d)
            (sym (
              mark_mapped-cons d id stored p.mapped now found
              ∙ ap
                  (λ b.
                    mark_mapped (if b then d else put_delta d id (to_dispatched stored now))
                      p.mapped now)
                  fresh))
            (record {
              ended = rest.ended;
              deltas = rest.deltas;
              jobs = rest.jobs;
              kept = λ i g. rest.kept i (keep i g);
            })
    ]

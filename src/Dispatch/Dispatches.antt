-- ===== src/Dispatch/Dispatches.antt =====
-- About `DispatchPending` of internal/dispatcher.go.
use deltaflow.Prelude.{
  ℕ, ℤ, Str, Map, true, false, ◌≡◌, refl, sym, ◌∙◌, ap, ◌≤◌, none, some, List, [], map, length, All,
  All-map, All-take, All-lookup, All-select, All-sort_by, Distinct, Distinct-take, Distinct-sort_by,
  Distinct-select, Keys-Distinct, Keys-IsEntry, IsEntry, has, has_of_lookup, lookup, take, take-map,
  length-take-le, is_nonpos, to_count, arith, subst, Bool-cases, inl, inr,
}
use deltaflow.Model.{Time, Delta, SyncJob, Ctx, Result, ok}
use deltaflow.Deltas.Pull.{
  is_pending_for, delta_before, pending_entries, pending_delta_ids_for_sync,
}
use deltaflow.Deltas.Invariant as D
use deltaflow.Jobs.State.{JobStore}
use deltaflow.Jobs.Invariant as J
use deltaflow.Dispatch.Pending.{
  DispatchStore, outbox_job, Plan, stage, mark_mapped, apply_plan, dispatch_ids, dispatch_pending,
}
use deltaflow.Dispatch.Staging.{IsPlan, plans_nothing, plans_mark, plans_job, stage-IsPlan}
use deltaflow.Dispatch.Applied.{Inv, IsReady, store_staged-IsReady, mark_mapped-IsMarked}

-- A pending delta of the sync in the map.
abbrev IsPulled : Map Delta → Str → Str × Delta → Type 0
IsPulled m sync_id e = IsEntry m e × (is_pending_for sync_id e.1 ≡ true)

-- The entries that a dispatch pulls.
abbrev pulled : DispatchStore → Str → ℤ → List (Str × Delta)
pulled d sync_id limit = take (to_count limit) (pending_entries d.delta_store.deltas sync_id)

pulled-IsPulled :
    (d : DispatchStore) (sync_id : Str) (limit : ℤ)
    → D.Inv d.delta_store
    → All (IsPulled d.delta_store.deltas sync_id) (pulled d sync_id limit)
unfolding pending_entries
pulled-IsPulled d sync_id limit v =
    let m = d.delta_store.deltas in
    All-take (IsPulled m sync_id) (to_count limit) (pending_entries m sync_id) (
      All-sort_by delta_before (IsPulled m sync_id) _
        (All-select (IsEntry m) (λ e. is_pending_for sync_id e.1) m (Keys-IsEntry m v.unique)))

pulled-Distinct :
    (d : DispatchStore) (sync_id : Str) (limit : ℤ)
    → D.Inv d.delta_store
    → Distinct (pulled d sync_id limit)
unfolding pending_entries
pulled-Distinct d sync_id limit v =
    let m = d.delta_store.deltas in
    Distinct-take (to_count limit) (pending_entries m sync_id) (
      Distinct-sort_by delta_before _
        (Distinct-select (λ e. is_pending_for sync_id e.1) m (Keys-Distinct m v.unique)))

dispatch_ids-pulled :
    (d : DispatchStore) (sync_id : Str) (limit : ℤ)
    → dispatch_ids d sync_id limit ≡ map (λ e. e.0) (pulled d sync_id limit)
unfolding dispatch_ids pending_delta_ids_for_sync
dispatch_ids-pulled d sync_id limit =
    take-map (λ (e : Str × Delta). e.0) (to_count limit)
      (pending_entries d.delta_store.deltas sync_id)

-- A new job of a dispatch: the outbox job of a pending delta of the sync that had no job.
pub record IsNewJob (d : DispatchStore) (sync_id : Str) (now : Time) (job : SyncJob) : Type 0 where
  pub delta : Delta
  pub found : lookup delta.id d.delta_store.deltas ≡ some delta
  pub was_pending : is_pending_for sync_id delta ≡ true
  pub had_none : has delta.id d.job_store.job_by_delta ≡ false
  pub made : job ≡ outbox_job delta job.id now

IsPlan-IsNewJob :
    (d : DispatchStore) (sync_id : Str) {now : Time} {es : List (Str × Delta)} {next : ℕ} {p : Plan}
    → IsPlan d.job_store now next es p
    → All (λ e. e.1.id ≡ e.0) es
    → All (IsPulled d.delta_store.deltas sync_id) es
    → All (IsNewJob d sync_id now) (map (λ i. i.1) p.staged)
IsPlan-IsNewJob d sync_id (plans_nothing next) n h = tt
IsPlan-IsNewJob d sync_id (plans_mark id delta there is) n h = IsPlan-IsNewJob d sync_id is n.1 h.1
IsPlan-IsNewJob d sync_id (plans_job id delta k absent later is) n h = (
  record {
    delta = delta;
    found = ap (λ i. lookup i d.delta_store.deltas) n.0 ∙ h.0.0;
    was_pending = h.0.1;
    had_none = ap (λ i. has i d.job_store.job_by_delta) n.0 ∙ absent;
    made = refl;
  },
  IsPlan-IsNewJob d sync_id is n.1 h.1,
)

IsPlan-length :
    {s : JobStore} {now : Time} {es : List (Str × Delta)} {next : ℕ} {p : Plan}
    → IsPlan s now next es p
    → length (map (λ i. i.1) p.staged) ≤ length es
IsPlan-length (plans_nothing next) = omega arith
IsPlan-length (plans_mark id delta there is) = omega (arith, IsPlan-length is)
IsPlan-length (plans_job id delta k absent later is) = omega (arith, IsPlan-length is)

-- The plan applied to the stores that it was made for.
apply_plan-IsPlan :
    (d : DispatchStore) (es : List (Str × Delta)) (p : Plan) (now : Time)
    → Inv d
    → IsPlan d.job_store now d.job_store.next_id es p
    → All (λ e. e.1.id ≡ e.0) es
    → Distinct es
    → All (λ e. has e.0 d.delta_store.deltas ≡ true) es
    → Inv (apply_plan d p now).0 × ((apply_plan d p now).1 ≡ ok (map (λ i. i.1) p.staged))
unfolding apply_plan
apply_plan-IsPlan d es p now v is named distinct present =
    let m = mark_mapped-IsMarked d is v.deltas present in
    let d₁ = (mark_mapped d p.mapped now).0 in
    let ready : IsReady d.job_store es d.job_store.next_id d₁ = record {
      deltas = m.deltas;
      jobs =
          subst (λ (j : JobStore). J.Inv (record j { next_id = d.job_store.next_id })) (sym m.jobs)
            v.jobs;
      named = named;
      distinct = distinct;
      unmapped =
          All-map (λ e. has e.0 d.delta_store.deltas ≡ true)
            (λ e.
              has e.0 d.job_store.job_by_delta ≡ false → has e.0 d₁.job_store.job_by_delta ≡ false)
            es (λ e _ g. subst (λ (j : JobStore). has e.0 j.job_by_delta ≡ false) (sym m.jobs) g)
            present;
      present =
          All-map (λ e. has e.0 d.delta_store.deltas ≡ true)
            (λ e. has e.0 d₁.delta_store.deltas ≡ true) es (λ e g. m.kept e.0 g) present;
    } in
    let st = store_staged-IsReady d₁ is ready in
    rw (m.ended, st.0) (record { deltas = st.1; jobs = st.2 }, refl)

-- What a dispatch answers and leaves behind.
pub record Dispatched (d : DispatchStore) (sync_id : Str) (limit : ℤ) (now : Time)
    (r : DispatchStore × Result (List SyncJob)) : Type 0 where
  pub jobs : List SyncJob
  pub answer : r.1 ≡ ok jobs
  pub keeps : Inv r.0
  pub new : All (IsNewJob d sync_id now) jobs
  pub bound : length jobs ≤ to_count limit

dispatch_planned :
    (d : DispatchStore) (sync_id : Str) (limit : ℤ) (now : Time) (p : Plan)
    → is_nonpos limit ≡ false
    → stage d.job_store d.delta_store.deltas (dispatch_ids d sync_id limit) d.job_store.next_id now
      ≡ ok p
    → dispatch_pending none d sync_id limit now ≡ apply_plan d p now
unfolding dispatch_pending
dispatch_planned d sync_id limit now p h e = rw (h, e)

-- With a context that has not ended, a dispatch over well-formed stores always answers, and leaves
-- them well formed. It answers no more jobs than its limit, each the pending outbox job of a delta
-- of the sync that was pending and had no job.
pub dispatch_pending-Dispatched :
    (d : DispatchStore) (sync_id : Str) (limit : ℤ) (now : Time)
    → Inv d
    → Dispatched d sync_id limit now (dispatch_pending none d sync_id limit now)
dispatch_pending-Dispatched d sync_id limit now v = elim (Bool-cases (is_nonpos limit)) [
  | inl none_asked ↦ nothing none_asked
  | inr asked ↦
      let es = pulled d sync_id limit in
      let pulls = pulled-IsPulled d sync_id limit v.deltas in
      let entries =
        All-map (IsPulled d.delta_store.deltas sync_id) (IsEntry d.delta_store.deltas) es
          (λ e g. g.0) pulls in
      let named =
        All-map (IsEntry d.delta_store.deltas) (λ e. e.1.id ≡ e.0) es
          (λ e g. All-lookup (λ x. x.1.id ≡ x.0) e.0 e.1 d.delta_store.deltas v.deltas.named g)
          entries in
      let present =
        All-map (IsEntry d.delta_store.deltas) (λ e. has e.0 d.delta_store.deltas ≡ true) es
          (λ e g. has_of_lookup e.0 e.1 d.delta_store.deltas g) entries in
      let (p, planned, is) =
        stage-IsPlan d.job_store d.delta_store.deltas es d.job_store.next_id now entries in
      let done =
        apply_plan-IsPlan d es p now v is named (pulled-Distinct d sync_id limit v.deltas)
          present in
      let start = dispatch_planned d sync_id limit now p asked (
        ap (λ ids. stage d.job_store d.delta_store.deltas ids d.job_store.next_id now)
          (dispatch_ids-pulled d sync_id limit)
        ∙ planned) in
      subst (Dispatched d sync_id limit now) (sym start) (record {
        jobs = map (λ i. i.1) p.staged;
        answer = done.1;
        keeps = done.0;
        new = IsPlan-IsNewJob d sync_id is named pulls;
        bound =
            let few =
              length-take-le (to_count limit) (pending_entries d.delta_store.deltas sync_id) in
            omega (arith, IsPlan-length is);
      })
]
  where
    nothing :
        is_nonpos limit ≡ true
        → Dispatched d sync_id limit now (dispatch_pending none d sync_id limit now)
    nothing h =
        unfold dispatch_pending in
        rw h (record { jobs = []; answer = refl; keeps = v; new = tt; bound = omega arith })

-- Under any context and limit a dispatch leaves well-formed stores well formed.
pub dispatch_pending-Inv :
    (ctx : Ctx) (d : DispatchStore) (sync_id : Str) (limit : ℤ) (now : Time)
    → Inv d
    → Inv (dispatch_pending ctx d sync_id limit now).0
dispatch_pending-Inv (some e) d sync_id limit now v = unfold dispatch_pending in v
dispatch_pending-Inv none d sync_id limit now v =
    (dispatch_pending-Dispatched d sync_id limit now v).keeps

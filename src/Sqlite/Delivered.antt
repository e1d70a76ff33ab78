-- ===== src/Sqlite/Delivered.antt =====
-- What `DispatchPending` of pkg/connectors/sqlite/dispatch_store.go leaves.
use deltaflow.Prelude.{
  zero, pos, negsuc, ℕ, ℤ, suc, ◌+◌, ◌≤◌, Str, true, false, ◌≡◌, refl, inl, inr, Option, none, some,
  List, [], ◌∷◌, length, length-append, length-take-le, All, Bool-cases, arith, is_nonpos, to_count,
}
use deltaflow.Model.{Time, SyncJob, Error, Result, ok, err, nil_dereference, diverges}
use deltaflow.Sqlite.Sql.{Session}
use deltaflow.Sqlite.Rows.{Json}
use deltaflow.Sqlite.DeltaRows.{DeltaRow}
use deltaflow.Sqlite.Create.{any_row, maps_delta}
use deltaflow.Sqlite.DeltaDispatch.{
  Tables, Wiring, wiring_error, commit_dispatch, dispatch_pending, dispatch_rows, pending_rows,
  mark_dispatched_tx, create_outbox_from_delta, add_job, later_steps,
}
use deltaflow.Sqlite.Atomic.{
  IsAllOrNothing, WhenOk, WhenOk-ok, WhenOk-both, after_step-Fine, after_result-Fine,
  WhenOk-failure, IsAllOrNothing-failure,
}
use deltaflow.Sqlite.Marking.{
  is_undispatched, IsMapped, mark-keeps, mark-AllDispatched, create-keeps, create-new,
}

-- The delta has an outbox job, and no row of it waits for a dispatch.
pub record IsDelivered (t : Tables) (id : Str) : Type 0 where
  pub mapped : any_row (maps_delta (some id)) t.jobs ≡ true
  pub dispatched : All (λ row. is_undispatched id row ≡ false) t.deltas

module _ (json : Json) (taken : Error) (m : ℕ) (now : Time) where
  IsDelivered-step :
      (i : Str) (io : Session) (t : Tables) (delta : DeltaRow) (random : Result Str)
      → IsDelivered t i
      → IsDelivered
          (record {
            deltas = (mark_dispatched_tx (later_steps io) t.deltas delta.id now).0;
            jobs = (create_outbox_from_delta json taken m io t.jobs delta random now).0;
          })
          i
  IsDelivered-step i io t delta random d = record {
    mapped = create-keeps json taken m now i io t.jobs delta random d.mapped;
    dispatched = mark-keeps now delta.id i (later_steps io) t.deltas d.dispatched;
  }

  -- What was delivered stays delivered.
  dispatch_rows-keeps :
      (i : Str) (io : ℕ → Session) (random : ℕ → Result Str) (t : Tables) (ds : List DeltaRow)
      (jobs : List SyncJob)
      → IsDelivered t i
      → WhenOk (λ t' js. IsDelivered t' i) (dispatch_rows json taken m now io random t ds jobs)
  unfolding dispatch_rows
  dispatch_rows-keeps i io random t [] jobs d = d
  dispatch_rows-keeps i io random t (delta ∷ ds) jobs d =
      let Good = λ (t' : Tables) (js : List SyncJob). IsDelivered t' i in
      let rows = create_outbox_from_delta json taken m (io 0) t.jobs delta (random 0) now in
      let marks = mark_dispatched_tx (later_steps (io 0)) t.deltas delta.id now in
      let t1 : Tables = record { deltas = marks.0; jobs = rows.0 } in
      let made_t : Tables = record t { jobs = rows.0 } in
      after_result-Fine (WhenOk Good) made_t (WhenOk-failure Good made_t) rows.1 _ (λ job made.
        after_step-Fine (WhenOk Good) t1 (WhenOk-failure Good t1) marks.1 _ (λ done.
          dispatch_rows-keeps i (λ n. io (suc n)) (λ n. random (suc n)) t1 ds (add_job job jobs)
            (IsDelivered-step i (io 0) t delta (random 0) d)))

  -- The jobs are at most those at the start and one for each delta, and each delta is delivered.
  abbrev Delivers : List DeltaRow → ℕ → Tables → List SyncJob → Type 0
  Delivers ds n t' js = (length js ≤ n + length ds) × All (λ delta. IsDelivered t' delta.id) ds

  add_job-length :
      (o : Option SyncJob) (jobs : List SyncJob) → length (add_job o jobs) ≤ length jobs + 1
  add_job-length none jobs = omega arith
  add_job-length (some job) jobs = omega (arith, length-append jobs (job ∷ []))

  dispatch_rows-Delivers :
      (io : ℕ → Session) (random : ℕ → Result Str) (t : Tables) (ds : List DeltaRow)
      (jobs : List SyncJob)
      → WhenOk (Delivers ds (length jobs)) (dispatch_rows json taken m now io random t ds jobs)
  unfolding dispatch_rows
  dispatch_rows-Delivers io random t [] jobs = (omega arith, tt)
  dispatch_rows-Delivers io random t (delta ∷ ds) jobs =
      let Good = Delivers (delta ∷ ds) (length jobs) in
      let rows = create_outbox_from_delta json taken m (io 0) t.jobs delta (random 0) now in
      let marks = mark_dispatched_tx (later_steps (io 0)) t.deltas delta.id now in
      let t1 : Tables = record { deltas = marks.0; jobs = rows.0 } in
      let made_t : Tables = record t { jobs = rows.0 } in
      after_result-Fine (WhenOk Good) made_t (WhenOk-failure Good made_t) rows.1 _ (λ job made.
        after_step-Fine (WhenOk Good) t1 (WhenOk-failure Good t1) marks.1 _ (λ done.
          let here : IsDelivered t1 delta.id = record {
            mapped =
                WhenOk-ok (λ jobs' job'. IsMapped delta.id jobs') rows job
                  (create-new json taken m now (io 0) t.jobs delta (random 0)) made;
            dispatched = mark-AllDispatched now delta.id (later_steps (io 0)) t.deltas done;
          } in
          WhenOk-both (λ t' js. IsDelivered t' delta.id) (Delivers ds (length (add_job job jobs)))
            Good
            (dispatch_rows json taken m now (λ n. io (suc n)) (λ n. random (suc n)) t1 ds
              (add_job job jobs))
            (λ t' js d all. (omega (arith, add_job-length job jobs, all.0), (d, all.1)))
            (dispatch_rows-keeps delta.id (λ n. io (suc n)) (λ n. random (suc n)) t1 ds
              (add_job job jobs) here)
            (dispatch_rows-Delivers (λ n. io (suc n)) (λ n. random (suc n)) t1 ds
              (add_job job jobs))))

commit_dispatch-IsAllOrNothing :
    (tx : Session) (t : Tables) (Good : Tables → List SyncJob → Type 0)
    (r : Tables × Result (List SyncJob))
    → WhenOk Good r
    → IsAllOrNothing t Good (commit_dispatch tx t r)
commit_dispatch-IsAllOrNothing tx t Good (t', ok jobs) h =
    after_step-Fine (IsAllOrNothing t Good) t (IsAllOrNothing-failure Good t) (tx.fault 2)
      (t', ok jobs) (λ fine. inr (jobs, refl, h))
commit_dispatch-IsAllOrNothing tx t Good (t', err e) h = inl (refl, tt)
commit_dispatch-IsAllOrNothing tx t Good (t', nil_dereference) h = inl (refl, tt)
commit_dispatch-IsAllOrNothing tx t Good (t', diverges) h = inl (refl, tt)

-- No more jobs are answered than the limit, and the first pending deltas up to it are delivered.
abbrev pub IsDispatched : Tables → Str → ℤ → Tables → List SyncJob → Type 0
IsDispatched t sync_id limit t' jobs =
    (length jobs ≤ to_count limit)
    × All (λ delta. IsDelivered t' delta.id) (pending_rows t.deltas sync_id (to_count limit))

nothing-IsDispatched :
    (t : Tables) (sync_id : Str) (limit : ℤ)
    → is_nonpos limit ≡ true
    → IsDispatched t sync_id limit t []
unfolding pending_rows
nothing-IsDispatched t sync_id (pos zero) h = (omega arith, tt)
nothing-IsDispatched t sync_id (pos (suc n)) h = cc
nothing-IsDispatched t sync_id (negsuc n) h = (omega arith, tt)

length-pending_rows :
    (rows : List DeltaRow) (sync_id : Str) (n : ℕ) → length (pending_rows rows sync_id n) ≤ n
unfolding pending_rows
length-pending_rows rows sync_id n = length-take-le n _

-- Whichever steps fail, `DispatchPending` of the SQLite store either answers no jobs and leaves
-- both tables as they were, or answers no more jobs than its limit, and then each of the first
-- pending deltas of the sync, up to the limit, has an outbox job and no row of it is left
-- undispatched.
pub dispatch_pending-IsDispatched :
    (wiring : Wiring) (json : Json) (taken : Error) (max_attempts : ℕ) (tx : Session)
    (io : ℕ → Session) (random : ℕ → Result Str) (t : Tables) (sync_id : Str) (limit : ℤ)
    (now : Time)
    → IsAllOrNothing t
        (IsDispatched t sync_id limit)
        (dispatch_pending wiring json taken max_attempts tx io random t sync_id limit now)
unfolding dispatch_pending
dispatch_pending-IsDispatched wiring json taken m tx io random t sync_id limit now =
    let Good = IsDispatched t sync_id limit in
    let Fine = IsAllOrNothing t Good in
    let fails = IsAllOrNothing-failure Good t in
    let ds = pending_rows t.deltas sync_id (to_count limit) in
    let delivered = dispatch_rows-Delivers json taken m now io random t ds [] in
    after_step-Fine Fine t fails (tx.ctx 0) _ (λ _. elim (Bool-cases (is_nonpos limit)) [
      | inl e ↦ rw e (inr ([], refl, nothing-IsDispatched t sync_id limit e))
      | inr e ↦ rw e (
          after_step-Fine Fine t fails (wiring_error wiring) _ (λ _.
            after_step-Fine Fine t fails (tx.fault 0) _ (λ _.
              after_step-Fine Fine t fails (tx.fault 1) _ (λ _.
                commit_dispatch-IsAllOrNothing tx t Good
                  (dispatch_rows json taken m now io random t ds [])
                  (WhenOk-both (Delivers json taken m now ds 0) (Delivers json taken m now ds 0)
                    Good _
                    (λ t' js d _. (
                      omega (arith, d.0, length-pending_rows t.deltas sync_id (to_count limit)),
                      d.1,
                    ))
                    delivered delivered)))))
    ])

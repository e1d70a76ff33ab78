-- ===== src/Sqlite/Marking.antt =====
-- What the statements of a dispatch leave: `createOutboxFromDeltaTx` of
-- pkg/connectors/sqlite/job_store.go and `markDispatchedTx` of delta_store.go.
use deltaflow.Prelude.{
  sym, subst, codes, Option-cases, ℕ, Str, Bool, true, false, ◌≡◌, refl, ◌⊎◌, inl, inr, not, ◌&&◌,
  Option, none, some, List, [], ◌∷◌, ◌++◌, All, Bool-cases, arith, ◌==◌, str_eq_refl,
}
use deltaflow.Model.{
  Time, SyncJob, Error, Result, ok, err, nil_dereference, diverges, is_dispatched,
}
use deltaflow.Sqlite.Sql.{Session, update_where, affected}
use deltaflow.Sqlite.Rows.{Json, JobRow}
use deltaflow.Sqlite.DeltaRows.{DeltaRow}
use deltaflow.Sqlite.Create.{any_row, maps_delta, has_id, new_id}
use deltaflow.Sqlite.Deltas.{has_delta_id}
use deltaflow.Sqlite.DeltaDispatch.{
  dispatched_row, mark_dispatched_tx, create_outbox_from_delta, insert_outbox, outbox_row,
}
use deltaflow.Sqlite.Atomic.{WhenOk, after_step-Fine, after_result-Fine, WhenOk-failure}

-- A row of the delta that is not dispatched.
abbrev pub is_undispatched : Str → DeltaRow → Bool
is_undispatched id row = has_delta_id id row && not (is_dispatched row.state)

-- The delta has an outbox job.
abbrev pub IsMapped : Str → List JobRow → Type 0
IsMapped i jobs = any_row (maps_delta (some i)) jobs ≡ true

any_row-append :
    (p : JobRow → Bool) (rows : List JobRow) (row : JobRow)
    → any_row p rows ≡ true
    → any_row p (rows ++ row ∷ []) ≡ true
any_row-append p [] row h = absurd (ground arith)
any_row-append p (r ∷ rows) row h = elim (Bool-cases (p r)) [
  | inl e ↦ rw e (ground arith)
  | inr e ↦ rw e (any_row-append p rows row (rw e at h))
]

any_row-last :
    (p : JobRow → Bool) (rows : List JobRow) (row : JobRow)
    → p row ≡ true
    → any_row p (rows ++ row ∷ []) ≡ true
any_row-last p [] row h = rw h (ground arith)
any_row-last p (r ∷ rows) row h = elim (Bool-cases (p r)) [
  | inl e ↦ rw e (ground arith)
  | inr e ↦ rw e (any_row-last p rows row h)
]

dispatched-is_dispatched :
    (at : Time) (row : DeltaRow) → is_dispatched (dispatched_row at row).state ≡ true
dispatched-is_dispatched at row = elim (Bool-cases (is_dispatched row.state)) [
  | inl e ↦ rw e e
  | inr e ↦ rw e refl
]

is_dispatched-false :
    (i : Str) (row : DeltaRow) → is_dispatched row.state ≡ true → is_undispatched i row ≡ false
is_dispatched-false i row h = elim (Bool-cases (has_delta_id i row)) [
  | inl e ↦ rw (e, h) refl
  | inr e ↦ rw e refl
]

abbrev pub AllDispatched : Str → List DeltaRow → Type 0
AllDispatched id rows = All (λ row. is_undispatched id row ≡ false) rows

module _ (at : Time) (id : Str) where
  abbrev marked : List DeltaRow → List DeltaRow
  marked rows = update_where (has_delta_id id) (dispatched_row at) rows

  marked-AllDispatched : (rows : List DeltaRow) → AllDispatched id (marked rows)
  unfolding update_where
  marked-AllDispatched [] = tt
  marked-AllDispatched (row ∷ rows) = (
    elim (Bool-cases (has_delta_id id row)) [
      | inl e ↦
          rw e (is_dispatched-false id (dispatched_row at row) (dispatched-is_dispatched at row))
      | inr e ↦ rw e (rw e refl)
    ],
    marked-AllDispatched rows,
  )

  marked-keeps :
      (i : Str) (rows : List DeltaRow) → AllDispatched i rows → AllDispatched i (marked rows)
  unfolding update_where
  marked-keeps i [] h = tt
  marked-keeps i (row ∷ rows) h = (
    elim (Bool-cases (has_delta_id id row)) [
      | inl e ↦
          rw e (is_dispatched-false i (dispatched_row at row) (dispatched-is_dispatched at row))
      | inr e ↦ rw e h.0
    ],
    marked-keeps i rows h.1,
  )

  -- What a marking leaves, whether it fails or not: the rows as they were, or marked.
  mark_cases :
      (io : Session) (rows : List DeltaRow)
      → ((mark_dispatched_tx io rows id at).0 ≡ marked rows)
        ⊎ (((mark_dispatched_tx io rows id at).0 ≡ rows)
            × (e : Error) × ((mark_dispatched_tx io rows id at).1 ≡ some e))
  unfolding mark_dispatched_tx
  mark_cases io rows = elim (Option-cases (io.fault 0)) [
    | inr (e, failed) ↦ rw (failed, mark_dispatched_tx) (inr (refl, e, refl))
    | inl fine ↦ elim (Option-cases (io.fault 1)) [
      | inr (e, failed) ↦ rw (fine, failed, mark_dispatched_tx) (inl refl)
      | inl fine' ↦ elim (Bool-cases (affected (has_delta_id id) rows == 0)) [
        | inl e ↦ rw (fine, fine', e, mark_dispatched_tx) (inl refl)
        | inr e ↦ rw (fine, fine', e, mark_dispatched_tx) (inl refl)
      ]
    ]
  ]

  pub mark-keeps :
      (i : Str) (io : Session) (rows : List DeltaRow)
      → AllDispatched i rows
      → AllDispatched i (mark_dispatched_tx io rows id at).0
  mark-keeps i io rows h = elim (mark_cases io rows) [
    | inl e ↦ subst (AllDispatched i) (sym e) (marked-keeps i rows h)
    | inr (same, e, failed) ↦ subst (AllDispatched i) (sym same) h
  ]

  pub mark-AllDispatched :
      (io : Session) (rows : List DeltaRow)
      → (mark_dispatched_tx io rows id at).1 ≡ none
      → AllDispatched id (mark_dispatched_tx io rows id at).0
  mark-AllDispatched io rows h = elim (mark_cases io rows) [
    | inl e ↦ subst (AllDispatched id) (sym e) (marked-AllDispatched rows)
    | inr (same, e, failed) ↦ cc
  ]

module _ (json : Json) (taken : Error) (m : ℕ) (now : Time) where
  insert_outbox-IsMapped :
      (i : Str) (jobs : List JobRow) (row : JobRow)
      → IsMapped i jobs
      → IsMapped i (insert_outbox json taken jobs row).0
  insert_outbox-IsMapped i jobs row h = elim (Bool-cases (any_row (maps_delta row.delta_id) jobs)) [
    | inl e ↦ rw e h
    | inr e ↦ elim (Bool-cases (any_row (has_id row.id) jobs)) [
      | inl e' ↦ rw (e, e') h
      | inr e' ↦ rw (e, e') (any_row-append (maps_delta (some i)) jobs row h)
    ]
  ]

  pub create-keeps :
      (i : Str) (io : Session) (jobs : List JobRow) (delta : DeltaRow) (random : Result Str)
      → IsMapped i jobs
      → IsMapped i (create_outbox_from_delta json taken m io jobs delta random now).0
  unfolding create_outbox_from_delta
  create-keeps i io jobs delta random h =
      let Fine = λ (r : List JobRow × Result (Option SyncJob)). IsMapped i r.0 in
      after_result-Fine Fine jobs (λ r f. h) (new_id (codes "job") now random) _
        (λ id named.
          after_step-Fine Fine jobs (λ r f. h) (io.fault 0) _
            (λ fine. insert_outbox-IsMapped i jobs (outbox_row m delta id now) h))

  WhenOk-state :
      {S A : Type 0} (P : S → Type 0) (s : S) (r : Result A) → P s → WhenOk (λ s a. P s) (s, r)
  WhenOk-state P s (ok a) h = h
  WhenOk-state P s (err e) h = tt
  WhenOk-state P s nil_dereference h = tt
  WhenOk-state P s diverges h = tt

  insert_outbox-new :
      (jobs : List JobRow) (delta : DeltaRow) (id : Str)
      → WhenOk
          (λ jobs' job. IsMapped delta.id jobs')
          (insert_outbox json taken jobs (outbox_row m delta id now))
  insert_outbox-new jobs delta id =
      let row = outbox_row m delta id now in
      elim (Bool-cases (any_row (maps_delta (some delta.id)) jobs)) [
        | inl e ↦ rw e e
        | inr e ↦ elim (Bool-cases (any_row (has_id id) jobs)) [
          | inl e' ↦ rw (e, e') tt
          | inr e' ↦
              rw (e, e')
                (WhenOk-state (IsMapped delta.id) (jobs ++ row ∷ []) _
                  (any_row-last (maps_delta (some delta.id)) jobs row (str_eq_refl delta.id)))
        ]
      ]

  pub create-new :
      (io : Session) (jobs : List JobRow) (delta : DeltaRow) (random : Result Str)
      → WhenOk
          (λ jobs' job. IsMapped delta.id jobs')
          (create_outbox_from_delta json taken m io jobs delta random now)
  unfolding create_outbox_from_delta
  create-new io jobs delta random =
      let Good = λ (jobs' : List JobRow) (job : Option SyncJob). IsMapped delta.id jobs' in
      after_result-Fine (WhenOk Good) jobs (WhenOk-failure Good jobs)
        (new_id (codes "job") now random) _
        (λ id named.
          after_step-Fine (WhenOk Good) jobs (WhenOk-failure Good jobs) (io.fault 0) _
            (λ fine. insert_outbox-new jobs delta id))

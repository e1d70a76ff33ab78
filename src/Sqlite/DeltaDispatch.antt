-- ===== src/Sqlite/DeltaDispatch.antt =====
-- pkg/connectors/sqlite/delta_store.go: `Pull`, `pullPendingForDispatchTx`, `MarkDispatched` and
-- `markDispatchedTx`; `createOutboxFromDeltaTx` of job_store.go; and `DispatchPending` of
-- dispatch_store.go.
use deltaflow.Prelude.{
  ℕ, suc, ℤ, Str, Bool, if◌then◌else◌, not, ◌&&◌, ◌==◌, Option, none, some, List, [], ◌∷◌, ◌++◌,
  is_nonpos, to_count, ltb, str_eq, str_lt, select, sort_by, take, codes,
}
use deltaflow.Model.{
  Time, Delta, SyncJob, dispatched, is_pending, is_dispatched, JobState, outbox, Error,
  delta_not_found, Result, ok, err, nil_dereference, diverges, ◌>>=◌,
}
use deltaflow.Sqlite.Sql.{Session, micros_from_time, update_where, affected}
use deltaflow.Sqlite.Rows.{Json, JobRow, scan_sync_job}
use deltaflow.Sqlite.DeltaRows.{DeltaRow, scan_deltas}
use deltaflow.Sqlite.Create.{new_id, any_row, has_id, maps_delta}
use deltaflow.Sqlite.Deltas.{has_delta_id}

-- `state = 'pending' AND sync_id = ?`
abbrev pub is_pending_row : Str → DeltaRow → Bool
is_pending_row sync_id row = is_pending row.state && str_eq row.sync_id sync_id

-- `ORDER BY occurred_at_micros ASC, created_at_micros ASC, id ASC`
unfoldable pub delta_row_before : DeltaRow → DeltaRow → Bool
delta_row_before left right =
    if not (left.occurred_at_micros == right.occurred_at_micros)
    then ltb left.occurred_at_micros right.occurred_at_micros
    else if not (left.created_at_micros == right.created_at_micros)
    then ltb left.created_at_micros right.created_at_micros
    else str_lt left.id right.id

-- The rows of both queries.
unfoldable pub pending_rows : List DeltaRow → Str → ℕ → List DeltaRow
unfolding delta_row_before
pending_rows rows sync_id limit =
    take limit (sort_by delta_row_before (select (is_pending_row sync_id) rows))

-- `Pull`: the query (0) and the error of the cursor (1). An empty list is a nil one.
unfoldable pub pull : Json → Session → List DeltaRow → Str → ℤ → Result (List Delta)
unfolding pending_rows scan_deltas
pull json io rows sync_id limit = elim (io.ctx 0) [
  | some e ↦ err e
  | none ↦ if is_nonpos limit then ok [] else elim (io.fault 0) [
    | some e ↦ err e
    | none ↦
        scan_deltas json (pending_rows rows sync_id (to_count limit))
        >>= (λ deltas. elim (io.fault 1) [ some e ↦ err e | none ↦ ok deltas ])
  ]
]

-- What the statement assigns; a dispatched row keeps its moment.
abbrev pub dispatched_row : Time → DeltaRow → DeltaRow
dispatched_row at row =
    if is_dispatched row.state
    then row
    else record row { state = dispatched; dispatched_at_micros = some (micros_from_time at) }

-- `markDispatchedTx`: the statement (0) and the count of its rows (1).
unfoldable pub mark_dispatched_tx :
    Session → List DeltaRow → Str → Time → List DeltaRow × Option Error
unfolding update_where affected
mark_dispatched_tx io rows delta_id at = elim (io.fault 0) [
  | some e ↦ (rows, some e)
  | none ↦
      let rows' = update_where (has_delta_id delta_id) (dispatched_row at) rows in
      elim (io.fault 1) [
        | some e ↦ (rows', some e)
        | none ↦
            if affected (has_delta_id delta_id) rows == 0
            then (rows', some delta_not_found)
            else (rows', none)
      ]
]

-- `MarkDispatched`
unfoldable pub mark_dispatched : Session → List DeltaRow → Str → Time → List DeltaRow × Option Error
unfolding mark_dispatched_tx
mark_dispatched io rows delta_id now = elim (io.ctx 0) [
  | some e ↦ (rows, some e)
  | none ↦ mark_dispatched_tx io rows delta_id now
]

-- The row of a delta's outbox job.
abbrev pub outbox_row : ℕ → DeltaRow → Str → Time → JobRow
outbox_row max_attempts delta id now = record {
  id = id;
  sync_id = delta.sync_id;
  delta_id = some delta.id;
  origin = outbox;
  projection_type = delta.projection_type;
  projection_key = delta.projection_key;
  projection_key_hash = delta.projection_key_hash;
  state = JobState.pending;
  attempt_count = 0;
  max_attempts = max_attempts;
  last_error = none;
  last_error_code = none;
  available_at_micros = micros_from_time now;
  locked_by = none;
  locked_until_micros = none;
  ghost_detected = 0;
  synced_at_micros = none;
  dead_at_micros = none;
  created_at_micros = micros_from_time now;
  updated_at_micros = micros_from_time now;
}

-- The insertion of `createOutboxFromDeltaTx`: nothing for a delta that has an outbox job, `taken` for
-- an identifier that is there; otherwise the returned row is scanned.
abbrev pub insert_outbox :
    Json → Error → List JobRow → JobRow → List JobRow × Result (Option SyncJob)
insert_outbox json taken jobs row =
    if any_row (maps_delta row.delta_id) jobs
    then (jobs, ok none)
    else if any_row (has_id row.id) jobs
    then (jobs, err taken)
    else (jobs ++ row ∷ [], scan_sync_job json row >>= (λ job. ok (some job)))

-- `createOutboxFromDeltaTx`, whose statement is step 0.
unfoldable pub create_outbox_from_delta :
    Json
    → Error
    → ℕ
    → Session
    → List JobRow
    → DeltaRow
    → Result Str
    → Time
    → List JobRow × Result (Option SyncJob)
unfolding new_id scan_sync_job
create_outbox_from_delta json taken max_attempts io jobs delta random now =
    elim (new_id (codes "job") now random) [
      | ok id ↦ elim (io.fault 0) [
        | some e ↦ (jobs, err e)
        | none ↦ insert_outbox json taken jobs (outbox_row max_attempts delta id now)
      ]
      | err e ↦ (jobs, err e)
      | nil_dereference ↦ (jobs, nil_dereference)
      | diverges ↦ (jobs, diverges)
    ]

-- The two tables in a transaction.
pub record Tables : Type 0 where
  pub deltas : List DeltaRow
  pub jobs : List JobRow

abbrev pub later_steps : Session → Session
later_steps io = record { ctx = io.ctx; fault = λ n. io.fault (suc n) }

abbrev pub add_job : Option SyncJob → List SyncJob → List SyncJob
add_job none jobs = jobs
add_job (some job) jobs = jobs ++ job ∷ []

-- The loop over the pending deltas. The n-th meets the n-th session and random text.
unfoldable pub dispatch_rows :
    Json
    → Error
    → ℕ
    → Time
    → (ℕ → Session)
    → (ℕ → Result Str)
    → Tables
    → List DeltaRow
    → List SyncJob
    → Tables × Result (List SyncJob)
unfolding create_outbox_from_delta mark_dispatched_tx
dispatch_rows json taken max_attempts now io random t [] jobs = (t, ok jobs)
dispatch_rows json taken max_attempts now io random t (delta ∷ deltas) jobs =
    let (rows, made) =
      create_outbox_from_delta json taken max_attempts (io 0) t.jobs delta (random 0) now in
    elim made [
      | ok job ↦
          let (rows', e) = mark_dispatched_tx (later_steps (io 0)) t.deltas delta.id now in
          elim e [
            | some e ↦ (record { deltas = rows'; jobs = rows }, err e)
            | none ↦
                dispatch_rows json taken max_attempts now (λ n. io (suc n)) (λ n. random (suc n))
                  (record { deltas = rows'; jobs = rows }) deltas (add_job job jobs)
          ]
      | err e ↦ (record t { jobs = rows }, err e)
      | nil_dereference ↦ (record t { jobs = rows }, nil_dereference)
      | diverges ↦ (record t { jobs = rows }, diverges)
    ]

-- The end of the transaction; without a commit the tables are as they were.
abbrev pub commit_dispatch :
    Session → Tables → Tables × Result (List SyncJob) → Tables × Result (List SyncJob)
commit_dispatch tx t (t', ok jobs) = elim (tx.fault 2) [
  | some e ↦ (t, err e)
  | none ↦ (t', ok jobs)
]
commit_dispatch tx t (t', err e) = (t, err e)
commit_dispatch tx t (t', nil_dereference) = (t, nil_dereference)
commit_dispatch tx t (t', diverges) = (t, diverges)

-- Whether the dispatch store has its two stores, they have databases, and these are the same.
pub record Wiring : Type 0 where
  pub has_stores : Bool
  pub has_databases : Bool
  pub shares_database : Bool

abbrev pub wiring_error : Wiring → Option Error
wiring_error w =
    if not w.has_stores
    then some (Error.external (codes "dispatch store requires delta and job stores"))
    else if not w.has_databases
    then some (Error.external (codes "dispatch store requires configured databases"))
    else if not w.shares_database
    then some (
        Error.external (codes "dispatch store requires delta and job stores sharing same database"))
    else none

-- `DispatchPending`. The steps of `tx` are its begin (0), the query
-- with its cursor (1) and the commit (2).
unfoldable pub dispatch_pending :
    Wiring
    → Json
    → Error
    → ℕ
    → Session
    → (ℕ → Session)
    → (ℕ → Result Str)
    → Tables
    → Str
    → ℤ
    → Time
    → Tables × Result (List SyncJob)
unfolding pending_rows dispatch_rows
dispatch_pending wiring json taken max_attempts tx io random t sync_id limit now = elim (tx.ctx 0) [
  | some e ↦ (t, err e)
  | none ↦ if is_nonpos limit then (t, ok []) else elim (wiring_error wiring) [
    | some e ↦ (t, err e)
    | none ↦ elim (tx.fault 0) [
      | some e ↦ (t, err e)
      | none ↦ elim (tx.fault 1) [
        | some e ↦ (t, err e)
        | none ↦ commit_dispatch tx t (
            dispatch_rows json taken max_attempts now io random t
              (pending_rows t.deltas sync_id (to_count limit)) [])
      ]
    ]
  ]
]

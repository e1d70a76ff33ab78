-- ===== src/Sqlite/Claim.antt =====
-- pkg/connectors/sqlite/job_store.go: `ClaimNext`, `claimCandidateTx`, `ClaimNextBatch` and
-- `requeueClaimedBatch`. A transaction that does not commit leaves the rows as they were.
use deltaflow.Prelude.{
  ℕ, zero, suc, ℤ, Str, Bool, true, false, if◌then◌else◌, not, ◌&&◌, ◌||◌, ◌==◌, Option, none, some,
  List, [], ◌∷◌, ◌++◌, ltb, leb, is_nonpos, to_count, add_duration, str_eq, str_lt, select, sort_by,
}
use deltaflow.Model.{
  Time, SyncJob, JobState, pending, processing, retrying, is_processing, Error, invalid_lock_for,
  Result, ok, err, nil_dereference, diverges,
}
use deltaflow.Sqlite.Sql.{Session, micros_from_time, null_le, is_null, update_where, affected}
use deltaflow.Sqlite.Rows.{Json, JobRow, scan_sync_job}
use deltaflow.Sqlite.Owned.{requeue_claimed}

-- `state IN ('pending', 'retrying')`
abbrev pub is_waiting : JobState → Bool
is_waiting pending = true
is_waiting retrying = true
is_waiting _ = false

-- The condition on a candidate; both statements have it.
abbrev pub is_claimable_row : Str → ℕ → JobRow → Bool
is_claimable_row sync_id now row =
    str_eq row.sync_id sync_id
    && ((is_waiting row.state && leb row.available_at_micros now)
        || (is_processing row.state
            && (is_null row.locked_until_micros || null_le row.locked_until_micros now)))

-- `ORDER BY available_at_micros ASC, created_at_micros ASC, id ASC`
unfoldable pub row_before : JobRow → JobRow → Bool
row_before left right =
    if not (left.available_at_micros == right.available_at_micros)
    then ltb left.available_at_micros right.available_at_micros
    else if not (left.created_at_micros == right.created_at_micros)
    then ltb left.created_at_micros right.created_at_micros
    else str_lt left.id right.id

-- The rows that the query for a candidate orders; `LIMIT 1` takes the first.
unfoldable pub candidate_rows : List JobRow → Str → ℕ → List JobRow
unfolding row_before
candidate_rows rows sync_id now = sort_by row_before (select (is_claimable_row sync_id now) rows)

abbrev pub claimed_row : Str → ℕ → ℕ → JobRow → JobRow
claimed_row worker_id now locked_until row = record row {
  state = processing;
  locked_by = some worker_id;
  locked_until_micros = some locked_until;
  updated_at_micros = now;
}

-- The condition of `claimCandidateTx`
abbrev pub is_candidate_row : Str → Str → ℕ → JobRow → Bool
is_candidate_row id sync_id now row = str_eq row.id id && is_claimable_row sync_id now row

-- The transaction's end, the last step that may fail.
abbrev pub commit :
    Session → List JobRow → List JobRow → Option SyncJob → List JobRow × Result (Option SyncJob)
commit io rows rows' answer = elim (io.fault 5) [
  | some e ↦ (rows, err e)
  | none ↦ (rows', ok answer)
]

-- The row that is read back, if there is one.
abbrev pub read_back :
    Json → Session → List JobRow → List JobRow → List JobRow → List JobRow × Result (Option SyncJob)
read_back json io rows rows' [] = commit io rows rows' none
read_back json io rows rows' (row ∷ _) = elim (scan_sync_job json row) [
  | ok job ↦ commit io rows rows' (some job)
  | err e ↦ (rows, err e)
  | nil_dereference ↦ (rows, nil_dereference)
  | diverges ↦ (rows, diverges)
]

-- `ClaimNext` from the candidate on.
unfoldable pub claim_candidate :
    Json
    → Session
    → List JobRow
    → List JobRow
    → Str
    → Str
    → ℕ
    → ℕ
    → List JobRow × Result (Option SyncJob)
unfolding scan_sync_job update_where affected
claim_candidate json io rows [] sync_id worker_id now locked_until = commit io rows rows none
claim_candidate json io rows (row ∷ _) sync_id worker_id now locked_until = elim (io.fault 2) [
  | some e ↦ (rows, err e)
  | none ↦ elim (io.fault 3) [
    | some e ↦ (rows, err e)
    | none ↦
        let condition = is_candidate_row row.id sync_id now in
        let rows' = update_where condition (claimed_row worker_id now locked_until) rows in
        if ltb 0 (affected condition rows)
        then elim (io.fault 4) [
          | some e ↦ (rows, err e)
          | none ↦ read_back json io rows rows' (select (λ r. str_eq r.id row.id) rows')
        ]
        else commit io rows rows' none
  ]
]

-- `ClaimNext`
unfoldable pub claim_next :
    Json → Session → List JobRow → Str → Str → ℤ → Time → List JobRow × Result (Option SyncJob)
unfolding candidate_rows claim_candidate
claim_next json io rows sync_id worker_id lock_for now = elim (io.ctx 0) [
  | some e ↦ (rows, err e)
  | none ↦ if is_nonpos lock_for then (rows, err invalid_lock_for) else elim (io.fault 0) [
    | some e ↦ (rows, err e)
    | none ↦ elim (io.fault 1) [
      | some e ↦ (rows, err e)
      | none ↦
          claim_candidate json io rows (candidate_rows rows sync_id (micros_from_time now)) sync_id
            worker_id (micros_from_time now) (micros_from_time (add_duration now lock_for))
    ]
  ]
]

-- The loop of `requeueClaimedBatch`: each call's error is dropped. The n-th call meets the n-th
-- session and the n-th moment.
unfoldable pub requeue_claimed_batch :
    (ℕ → Session) → (ℕ → Time) → List JobRow → Str → List SyncJob → Error → Time → List JobRow
unfolding requeue_claimed
requeue_claimed_batch io clock rows worker_id [] reason next_run_at = rows
requeue_claimed_batch io clock rows worker_id (job ∷ jobs) reason next_run_at =
    requeue_claimed_batch (λ n. io (suc n)) (λ n. clock (suc n))
      (requeue_claimed (io 0) rows job.id worker_id (some reason) next_run_at (clock 0)).0 worker_id
      jobs reason next_run_at

-- What the loop of `ClaimNextBatch` does after an error.
abbrev pub give_back :
    (ℕ → Session)
    → (ℕ → Time)
    → List JobRow
    → Str
    → List SyncJob
    → Error
    → List JobRow × Result (List SyncJob)
give_back io clock rows worker_id jobs e =
    (requeue_claimed_batch io (λ n. clock (suc n)) rows worker_id jobs e (clock 0), err e)

-- The loop, with the jobs claimed so far. The n-th round meets the n-th session and moment; the
-- calls that give jobs back meet those of `back`.
unfoldable pub claim_rounds :
    Json
    → Str
    → Str
    → ℤ
    → (ℕ → Session) × (ℕ → Time)
    → ℕ
    → (ℕ → Session)
    → (ℕ → Time)
    → List JobRow
    → List SyncJob
    → List JobRow × Result (List SyncJob)
unfolding claim_next requeue_claimed_batch
claim_rounds json sync_id worker_id lock_for back zero io clock rows jobs = (rows, ok jobs)
claim_rounds json sync_id worker_id lock_for back (suc n) io clock rows jobs =
    let (rows', answer) = claim_next json (io 0) rows sync_id worker_id lock_for (clock 0) in
    elim answer [
      | ok none ↦ (rows', ok jobs)
      | ok (some job) ↦
          claim_rounds json sync_id worker_id lock_for back n (λ k. io (suc k)) (λ k. clock (suc k))
            rows' (jobs ++ job ∷ [])
      | err e ↦ give_back back.0 back.1 rows' worker_id jobs e
      | nil_dereference ↦ (rows', nil_dereference)
      | diverges ↦ (rows', diverges)
    ]

-- `ClaimNextBatch`; an empty list is a nil one.
unfoldable pub claim_next_batch :
    Json
    → Session
    → (ℕ → Session) × (ℕ → Time)
    → (ℕ → Session)
    → (ℕ → Time)
    → List JobRow
    → Str
    → Str
    → ℤ
    → ℤ
    → List JobRow × Result (List SyncJob)
unfolding claim_rounds
claim_next_batch json first back io clock rows sync_id worker_id limit lock_for =
    elim (first.ctx 0) [
      | some e ↦ (rows, err e)
      | none ↦
          if is_nonpos lock_for
          then (rows, err invalid_lock_for)
          else if is_nonpos limit
          then (rows, ok [])
          else claim_rounds json sync_id worker_id lock_for back (to_count limit) io clock rows []
    ]

-- ===== src/Sqlite/DeltaBatch.antt =====
-- pkg/connectors/sqlite/delta_store.go: `EnqueueBatch` and `EnqueueBatchTx`. The n-th delta meets the
-- n-th moment, random text and session.
use deltaflow.Prelude.{
  ℕ, suc, ◌+◌, Str, if◌then◌else◌, not, Option, none, some, List, [], ◌∷◌, true, false, codes,
  is_empty, length, ◌==◌,
}
use deltaflow.Model.{
  Time, Delta, Error, Ctx, delta_id_provided, EnqueueBatchResult, Result, ok, err, nil_dereference,
  diverges, ◌>>=◌,
}
use deltaflow.Connectors.Prepare.{prepare_delta_for_enqueue, validate_durable_batch}
use deltaflow.Sqlite.Sql.{Session}
use deltaflow.Sqlite.Rows.{Json}
use deltaflow.Sqlite.DeltaRows.{DeltaRow}
use deltaflow.Sqlite.Create.{new_id}
use deltaflow.Sqlite.Deltas.{insert_delta, delta_row_of}

-- What the statement of a batch writes: the window and the key as they are.
abbrev pub batch_row_of : Delta → Str → Str → Str → DeltaRow
batch_row_of delta id key metadata = record (delta_row_of delta id key metadata) {
  dedup_window = some delta.dedup_window;
  dedup_key = some delta.dedup_key;
}

-- The first loop, before anything is written.
unfoldable pub prepare_rows :
    Json → (ℕ → Time) → (ℕ → Result Str) → List Delta → Result (List DeltaRow)
unfolding new_id
prepare_rows json clock random [] = ok []
prepare_rows json clock random (delta ∷ deltas) =
    let rest = prepare_rows json (λ n. clock (suc n)) (λ n. random (suc n)) deltas in
    if not (is_empty delta.id) then err delta_id_provided else do
      prepared ← prepare_delta_for_enqueue json.codec json.marshal_metadata delta (clock 0)
      id ← new_id (codes "delta") prepared.0.created_at (random 0)
      rows ← rest
      ok (batch_row_of prepared.0 id prepared.1 prepared.2 ∷ rows)

-- The second loop, with the counts of insertions and duplicates so far.
unfoldable pub insert_rows :
    Error → (ℕ → Session) → List DeltaRow → List DeltaRow → ℕ → ℕ → List DeltaRow × Result (ℕ × ℕ)
unfolding insert_delta
insert_rows taken io table [] inserted duplicates = (table, ok (inserted, duplicates))
insert_rows taken io table (row ∷ rows) inserted duplicates = elim ((io 0).fault 0) [
  | some e ↦ (table, err e)
  | none ↦
      let (table', count) = insert_delta taken table row in
      elim count [
        | ok n ↦ elim ((io 0).fault 1) [
          | some e ↦ (table', err e)
          | none ↦ elim (n == 1) [
            | true ↦ insert_rows taken (λ k. io (suc k)) table' rows (inserted + 1) duplicates
            | false ↦ insert_rows taken (λ k. io (suc k)) table' rows inserted (duplicates + 1)
          ]
        ]
        | err e ↦ (table', err e)
        | nil_dereference ↦ (table', nil_dereference)
        | diverges ↦ (table', diverges)
      ]
]

abbrev pub counted : ℕ → Str → ℕ × ℕ → EnqueueBatchResult
counted requested window (inserted, duplicates) = record {
  requested_count = requested;
  inserted_count = inserted;
  duplicate_count = duplicates;
  dedup_window = window;
}

-- `EnqueueBatchTx` on a transaction that is there. `prepare` is the error of preparing the statement.
unfoldable pub enqueue_batch_tx :
    Json
    → Error
    → ℕ
    → Ctx
    → Option Error
    → (ℕ → Session)
    → (ℕ → Time)
    → (ℕ → Result Str)
    → List DeltaRow
    → List Delta
    → List DeltaRow × Result EnqueueBatchResult
unfolding prepare_rows insert_rows
enqueue_batch_tx json taken max_size ctx prepare io clock random table deltas =
    elim (validate_durable_batch ctx deltas max_size) [
      | ok window ↦ elim deltas [
        | [] ↦ (table, ok (counted 0 window (0, 0)))
        | delta ∷ rest ↦ elim (prepare_rows json clock random (delta ∷ rest)) [
          | ok rows ↦ elim prepare [
            | some e ↦ (table, err e)
            | none ↦
                let (table', counts) = insert_rows taken io table rows 0 0 in
                (table', counts >>= (λ c. ok (counted (length (delta ∷ rest)) window c)))
          ]
          | err e ↦ (table, err e)
          | nil_dereference ↦ (table, nil_dereference)
          | diverges ↦ (table, diverges)
        ]
      ]
      | err e ↦ (table, err e)
      | nil_dereference ↦ (table, nil_dereference)
      | diverges ↦ (table, diverges)
    ]

-- `EnqueueBatch`: the transaction's begin (0) and its end (1) are steps of `tx`. Without a commit the
-- rows are as they were.
unfoldable pub enqueue_batch :
    Json
    → Error
    → ℕ
    → Session
    → Option Error
    → (ℕ → Session)
    → (ℕ → Time)
    → (ℕ → Result Str)
    → List DeltaRow
    → List Delta
    → List DeltaRow × Result EnqueueBatchResult
unfolding enqueue_batch_tx
enqueue_batch json taken max_size tx prepare io clock random table deltas = elim (tx.fault 0) [
  | some e ↦ (table, err e)
  | none ↦
      let (table', answer) =
        enqueue_batch_tx json taken max_size (tx.ctx 0) prepare io clock random table deltas in
      elim answer [
        | ok result ↦ elim (tx.fault 1) [ some e ↦ (table, err e) | none ↦ (table', ok result) ]
        | err e ↦ (table, err e)
        | nil_dereference ↦ (table, nil_dereference)
        | diverges ↦ (table, diverges)
      ]
]

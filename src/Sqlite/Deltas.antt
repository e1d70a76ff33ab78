-- ===== src/Sqlite/Deltas.antt =====
-- pkg/connectors/sqlite/delta_store.go: `Enqueue`, `EnqueueInTx` and `Get`.
use deltaflow.Prelude.{
  ℕ, Str, Bool, false, if◌then◌else◌, not, ◌&&◌, ◌==◌, Option, none, some, List, [], ◌∷◌, ◌++◌,
  is_empty, ltb, length, str_eq, select, codes,
}
use deltaflow.Model.{
  Time, Delta, Error, delta_id_provided, Result, ok, err, nil_dereference, diverges, ◌>>=◌,
}
use deltaflow.Connectors.Prepare.{prepare_delta_for_enqueue}
use deltaflow.Sqlite.Sql.{Session, micros_from_time}
use deltaflow.Sqlite.Rows.{Json}
use deltaflow.Sqlite.DeltaRows.{DeltaRow, scan_delta}
use deltaflow.Sqlite.Create.{new_id}

-- `NULLIF(?, '')`
abbrev pub null_if_empty : Str → Option Str
null_if_empty [] = none
null_if_empty (c ∷ s) = some (c ∷ s)

-- `dedup_key = ?`, which no NULL passes.
abbrev pub has_dedup_key : Str → DeltaRow → Bool
has_dedup_key key row = elim row.dedup_key [ none ↦ false | some k ↦ str_eq k key ]

abbrev pub has_delta_id : Str → DeltaRow → Bool
has_delta_id id row = str_eq row.id id

abbrev pub any_delta : (DeltaRow → Bool) → List DeltaRow → Bool
any_delta p rows = ltb 0 (length (select p rows))

-- The row of a prepared delta.
abbrev pub delta_row_of : Delta → Str → Str → Str → DeltaRow
delta_row_of delta id key metadata = record {
  id = id;
  sync_id = delta.sync_id;
  origin = delta.origin;
  projection_type = delta.projection_type;
  projection_key = key;
  projection_key_hash = delta.projection_key_hash;
  dedup_window = null_if_empty delta.dedup_window;
  dedup_key = null_if_empty delta.dedup_key;
  state = delta.state;
  occurred_at_micros = micros_from_time delta.occurred_at;
  created_at_micros = micros_from_time delta.created_at;
  dispatched_at_micros = none;
  metadata = some metadata;
}

abbrev pub conflicts : DeltaRow → List DeltaRow → Bool
conflicts row rows = elim row.dedup_key [ none ↦ false | some k ↦ any_delta (has_dedup_key k) rows ]

-- `INSERT ... ON CONFLICT(dedup_key) WHERE dedup_key IS NOT NULL DO NOTHING`: the rows, and how many
-- are new. `taken` is the engine's error for an identifier that is there.
unfoldable pub insert_delta : Error → List DeltaRow → DeltaRow → List DeltaRow × Result ℕ
insert_delta taken rows row =
    if conflicts row rows
    then (rows, ok 0)
    else if any_delta (has_delta_id row.id) rows
    then (rows, err taken)
    else (rows ++ row ∷ [], ok 1)

abbrev pub scan_first_delta : Json → List DeltaRow → Result (Option Delta)
scan_first_delta json [] = ok none
scan_first_delta json (row ∷ _) = scan_delta json row >>= (λ delta. ok (some delta))

-- `getWithQueryer`; the query is the `step`-th step, and its context is asked for the `at`-th time.
unfoldable pub get_delta : Json → Session → ℕ → ℕ → List DeltaRow → Str → Result (Option Delta)
unfolding scan_delta
get_delta json io at step rows delta_id = elim (io.ctx at) [
  | some e ↦ err e
  | none ↦ elim (io.fault step) [
    | some e ↦ err e
    | none ↦ scan_first_delta json (select (has_delta_id delta_id) rows)
  ]
]

-- The error of a read-back that finds no row.
abbrev pub missing_delta_read_back : Str → Error
missing_delta_read_back id =
    Error.external (codes "sqlite enqueue delta read-back missing for id " ++ (34 ∷ id) ++ 34 ∷ [])

-- `sql.ErrNoRows`
abbrev pub no_rows : Error
no_rows = Error.external (codes "sql: no rows in result set")

-- The read-back of `enqueue`, its third step.
abbrev pub read_delta_back : Json → Session → List DeltaRow → Str → Result Delta
read_delta_back json io rows id =
    get_delta json io 1 3 rows id
    >>= (λ o. elim o [ none ↦ err (missing_delta_read_back id) | some delta ↦ ok delta ])

-- The identifier of the row that has the dedup key, the second step.
abbrev pub existing_id : Session → List DeltaRow → Str → Result Str
existing_id io rows key = elim (io.fault 2) [
  | some e ↦ err e
  | none ↦ elim (select (has_dedup_key key) rows) [ [] ↦ err no_rows | row ∷ _ ↦ ok row.id ]
]

-- `enqueue` from the test of `rowsAffected` on; `key` is the dedup key.
abbrev pub after_insert : Json → Session → List DeltaRow → Str → Str → ℕ → Result Delta
after_insert json io rows id key count =
    if count == 0 && not (is_empty key)
    then existing_id io rows key >>= (λ i. read_delta_back json io rows i)
    else read_delta_back json io rows id

-- `enqueue` from the insertion on: the insertion (0) and the count of its rows (1).
unfoldable pub enqueue_row :
    Json → Error → Session → List DeltaRow → DeltaRow → Str → List DeltaRow × Result Delta
unfolding insert_delta get_delta
enqueue_row json taken io rows row key = elim (io.fault 0) [
  | some e ↦ (rows, err e)
  | none ↦
      let (rows', count) = insert_delta taken rows row in
      elim count [
        | ok n ↦ elim (io.fault 1) [
          | some e ↦ (rows', err e)
          | none ↦ (rows', after_insert json io rows' row.id key n)
        ]
        | err e ↦ (rows', err e)
        | nil_dereference ↦ (rows', nil_dereference)
        | diverges ↦ (rows', diverges)
      ]
]

-- The row of a delta and its dedup key, or the error of its preparation.
abbrev pub delta_row : Json → Delta → Result Str → Time → Result (DeltaRow × Str)
delta_row json delta random now = do
  prepared ← prepare_delta_for_enqueue json.codec json.marshal_metadata delta now
  id ← new_id (codes "delta") prepared.0.created_at random
  ok (delta_row_of prepared.0 id prepared.1 prepared.2, prepared.0.dedup_key)

-- `Enqueue` on the database or on a transaction that the caller holds
unfoldable pub enqueue :
    Json
    → Error
    → Session
    → List DeltaRow
    → Delta
    → Result Str
    → Time
    → List DeltaRow × Result Delta
unfolding enqueue_row new_id
enqueue json taken io rows delta random now = elim (io.ctx 0) [
  | some e ↦ (rows, err e)
  | none ↦
      if not (is_empty delta.id)
      then (rows, err delta_id_provided)
      else elim (delta_row json delta random now) [
        | ok (row, key) ↦ enqueue_row json taken io rows row key
        | err e ↦ (rows, err e)
        | nil_dereference ↦ (rows, nil_dereference)
        | diverges ↦ (rows, diverges)
      ]
]

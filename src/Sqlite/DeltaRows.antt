-- ===== src/Sqlite/DeltaRows.antt =====
-- pkg/connectors/sqlite/delta_store.go: the rows of `deltaflow_deltas` and `scanDelta`.
use deltaflow.Prelude.{
  ℕ, Str, Map, if◌then◌else◌, ◌||◌, Option, none, some, List, [], ◌∷◌, is_empty, str_eq, codes,
}
use deltaflow.Model.{
  Delta, DeltaState, OriginOperationType, ProjectionKey, Value, Result, ok, ◌>>=◌,
}
use deltaflow.Sqlite.Sql.{time_from_micros, time_of_null}
use deltaflow.Sqlite.Rows.{Json}

pub record DeltaRow : Type 0 where
  pub id : Str
  pub sync_id : Str
  pub origin : OriginOperationType
  pub projection_type : Str
  pub projection_key : Str
  pub projection_key_hash : Str
  pub dedup_window : Option Str
  pub dedup_key : Option Str
  pub state : DeltaState
  pub occurred_at_micros : ℕ
  pub created_at_micros : ℕ
  pub dispatched_at_micros : Option ℕ
  pub metadata : Option Str

-- The `String` of a nullable text.
abbrev pub text_of_null : Option Str → Str
text_of_null none = []
text_of_null (some s) = s

-- The delta of a row whose key and metadata decode to values.
abbrev pub delta_of : DeltaRow → ProjectionKey → Option (Map Value) → Delta
delta_of row key metadata = record {
  id = row.id;
  sync_id = row.sync_id;
  origin = row.origin;
  projection_type = row.projection_type;
  projection_key = key;
  projection_key_hash = row.projection_key_hash;
  dedup_window = text_of_null row.dedup_window;
  dedup_key = text_of_null row.dedup_key;
  state = row.state;
  occurred_at = time_from_micros row.occurred_at_micros;
  created_at = time_from_micros row.created_at_micros;
  dispatched_at = time_of_null row.dispatched_at_micros;
  metadata = metadata;
}

-- The metadata column: NULL, the empty text and "null" are a nil map.
abbrev pub scan_metadata : Json → Option Str → Result (Option (Map Value))
scan_metadata json none = ok none
scan_metadata json (some text) =
    if is_empty text || str_eq text (codes "null") then ok none else json.unmarshal_metadata text

-- `scanDelta` of a row that is there
unfoldable pub scan_delta : Json → DeltaRow → Result Delta
scan_delta json row = do
  key ← json.unmarshal_key row.projection_key
  metadata ← scan_metadata json row.metadata
  ok (delta_of row key metadata)

-- The loop of `Pull`
unfoldable pub scan_deltas : Json → List DeltaRow → Result (List Delta)
unfolding scan_delta
scan_deltas json [] = ok []
scan_deltas json (row ∷ rows) =
    scan_delta json row >>= (λ delta. scan_deltas json rows >>= (λ deltas. ok (delta ∷ deltas)))

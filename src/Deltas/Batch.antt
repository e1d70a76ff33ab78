-- ===== src/Deltas/Batch.antt =====
-- internal/store.go: `EnqueueBatch` and `validateEnqueueBatch` of `DeltaMemoryStore`.
use deltaflow.Prelude.{
  ℕ, suc, ◌+◌, Str, if◌then◌else◌, not, none, some, List, [], ◌∷◌, is_empty, has, insert, length,
  ltb, str_eq, codes,
}
use deltaflow.Model.{
  Time, Delta, Codec, Ctx, delta_id_provided, dedup_window_required, mixed_dedup_windows,
  enqueue_batch_too_large, Result, ok, err, nil_dereference, diverges, ◌>>=◌, EnqueueBatchResult,
}
use deltaflow.Ids.{candidate}
use deltaflow.Dedup.{compute_dedup_key, projection_key_hash}
use deltaflow.Deltas.State.{DeltaStore, with_defaults}

-- The loop over the deltas after the first.
unfoldable pub same_window : Str → List Delta → Result Str
same_window window [] = ok window
same_window window (delta ∷ deltas) =
    if is_empty delta.dedup_window
    then err dedup_window_required
    else if not (str_eq delta.dedup_window window)
    then err mixed_dedup_windows
    else same_window window deltas

-- The window of a batch that is not empty.
unfoldable pub batch_window : List Delta → Result Str
unfolding same_window
batch_window [] = ok []
batch_window (delta ∷ deltas) =
    if is_empty delta.dedup_window
    then err dedup_window_required
    else same_window delta.dedup_window deltas

-- `validateEnqueueBatch`
unfoldable pub validate_enqueue_batch : Ctx → List Delta → ℕ → Result Str
unfolding batch_window
validate_enqueue_batch (some e) deltas max_size = err e
validate_enqueue_batch none deltas max_size =
    if ltb max_size (length deltas) then err enqueue_batch_too_large else batch_window deltas

-- The first loop: key hashes and dedup keys, before anything is stored.
unfoldable pub prepare : Codec → Str → List Delta → Result (List Delta)
prepare c window [] = ok []
prepare c window (delta ∷ deltas) = if not (is_empty delta.id) then err delta_id_provided else do
  hash ← projection_key_hash c delta.projection_key
  rest ← prepare c window deltas
  ok (
      record delta {
        projection_key_hash = hash;
        dedup_key = compute_dedup_key c window delta.projection_type hash;
      }
      ∷ rest)

-- One round of the second loop, for a delta that is no duplicate. The number is not tested.
abbrev pub store_prepared : DeltaStore → Delta → Time → DeltaStore
store_prepared s delta now =
    let id = candidate (codes "delta-") (suc s.next_id) in
    record s {
      next_id = suc s.next_id;
      deltas = insert id (with_defaults delta id now) s.deltas;
      dedup = insert delta.dedup_key id s.dedup;
    }

-- The second loop, with the counts of insertions and duplicates so far.
unfoldable pub store_all : DeltaStore → List Delta → Time → ℕ → ℕ → DeltaStore × ℕ × ℕ
store_all s [] now inserted duplicates = (s, inserted, duplicates)
store_all s (delta ∷ deltas) now inserted duplicates =
    let skip = store_all s deltas now inserted (duplicates + 1) in
    let keep = store_all (store_prepared s delta now) deltas now (inserted + 1) duplicates in
    if has delta.dedup_key s.dedup then skip else keep

abbrev pub batch_result : ℕ → Str → DeltaStore × ℕ × ℕ → DeltaStore × Result EnqueueBatchResult
batch_result requested window (s, inserted, duplicates) = (
  s,
  ok (record {
    requested_count = requested;
    inserted_count = inserted;
    duplicate_count = duplicates;
    dedup_window = window;
  }),
)

-- From the validated window on.
unfoldable pub enqueue_windowed :
    Codec → DeltaStore → List Delta → Str → Time → DeltaStore × Result EnqueueBatchResult
unfolding prepare store_all
enqueue_windowed c s [] window now = batch_result 0 window (s, 0, 0)
enqueue_windowed c s (delta ∷ deltas) window now = elim (prepare c window (delta ∷ deltas)) [
  | ok prepared ↦ batch_result (length (delta ∷ deltas)) window (store_all s prepared now 0 0)
  | err e ↦ (s, err e)
  | nil_dereference ↦ (s, nil_dereference)
  | diverges ↦ (s, diverges)
]

-- `EnqueueBatch`
unfoldable pub enqueue_batch :
    Ctx → Codec → DeltaStore → List Delta → Time → DeltaStore × Result EnqueueBatchResult
unfolding validate_enqueue_batch enqueue_windowed
enqueue_batch ctx c s deltas now =
    elim (validate_enqueue_batch ctx deltas s.max_enqueue_batch_size) [
      | ok window ↦ enqueue_windowed c s deltas window now
      | err e ↦ (s, err e)
      | nil_dereference ↦ (s, nil_dereference)
      | diverges ↦ (s, diverges)
    ]

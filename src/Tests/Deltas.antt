-- ===== src/Tests/Deltas.antt =====
-- Runs of internal/store.go's `DeltaMemoryStore` and of `ComputeDedupKey`.
use deltaflow.Prelude.{
  insert, pos, ◌≡◌, refl, Option, none, some, [], ◌∷◌, codes, arith, lookup, has, itoa, str_eq,
}
use deltaflow.Model.{EnqueueBatchResult, Delta, Codec, OriginOperationType, DeltaState, Result, ok}
use deltaflow.Ids.{candidate, next_free}
use deltaflow.Dedup.{compute_dedup_key, projection_key_hash, dedup_preimage, segment, put_uint32}
use deltaflow.Dedup.Injective.{FitsUint32, dedup_preimage-injective}
use deltaflow.Deltas.State.{DeltaStore, new_delta_store}
use deltaflow.Deltas.Enqueue.{enqueue, enqueue_numbered, enqueue_hashed, enqueued}
use deltaflow.Deltas.Invariant.{Inv, new_delta_store-Inv}
use deltaflow.Deltas.Batch.{
  enqueue_batch, validate_enqueue_batch, batch_window, same_window, enqueue_windowed, prepare,
  store_all,
}
use deltaflow.Deltas.Accepted.{IsBatchOf, enqueue_batch-IsBatchOf}
use deltaflow.Deltas.Idempotence.{enqueue-Inv, enqueue_idempotent}

-- A digest that never collides.
abbrev pub plain_codec : Codec
plain_codec = record { marshal = λ key. ok (codes "{}"); sha256_hex = λ x. 35 ∷ x }

abbrev pub change : Delta
change = record {
  id = [];
  sync_id = codes "contacts";
  origin = OriginOperationType.updated;
  projection_type = codes "Contact";
  projection_key = [];
  projection_key_hash = [];
  dedup_window = codes "w";
  dedup_key = [];
  state = DeltaState.unset;
  occurred_at = 0;
  created_at = 0;
  dispatched_at = none;
  metadata = none;
}

abbrev pub store : DeltaStore
store = new_delta_store (pos 10)

abbrev first : DeltaStore × Result (Option Delta)
first = enqueue none plain_codec store change 10

abbrev first_delta : Delta
first_delta = enqueued plain_codec change (codes "delta-1") (35 ∷ codes "{}") 10

first_lem : first ≡ (first.0, ok (some first_delta))
unfolding enqueue enqueue_numbered enqueue_hashed new_delta_store next_free candidate itoa has
    lookup projection_key_hash
first_lem = refl

enqueue_idempotent_example :
    enqueue none plain_codec first.0 change 25 ≡ (first.0, ok (some first_delta))
enqueue_idempotent_example =
    enqueue_idempotent plain_codec store first.0 change change first_delta 10 25
      (new_delta_store-Inv (pos 10)) (λ x. refl) refl refl refl
      (record { window = refl; type = refl; key = refl }) first_lem

enqueue-Inv_example : Inv (enqueue none plain_codec store change 10).0
enqueue-Inv_example = enqueue-Inv none plain_codec store change 10 (new_delta_store-Inv (pos 10))

short : FitsUint32 (codes "w")
short = omega arith

dedup_preimage-injective_example :
    (codes "w" ≡ codes "w") × (codes "w" ≡ codes "w") × (codes "w" ≡ codes "w")
dedup_preimage-injective_example =
    dedup_preimage-injective (codes "w") (codes "w") (codes "w") (codes "w") (codes "w") (codes "w")
      (short, short, short, short, short, short) refl

-- The same change twice in one batch: one is inserted, and one is a duplicate.
abbrev batch : DeltaStore × Result EnqueueBatchResult
batch = enqueue_batch none plain_codec store (change ∷ change ∷ []) 10

abbrev counts : EnqueueBatchResult
counts = record {
  requested_count = 2;
  inserted_count = 1;
  duplicate_count = 1;
  dedup_window = codes "w";
}

batch_lem : batch ≡ (batch.0, ok counts)
unfolding enqueue_batch validate_enqueue_batch batch_window same_window enqueue_windowed prepare
    store_all new_delta_store candidate itoa has insert str_eq projection_key_hash compute_dedup_key
    dedup_preimage segment put_uint32
batch_lem = refl

enqueue_batch-IsBatchOf_example :
    IsBatchOf plain_codec store (change ∷ change ∷ []) 10 batch.0 counts
enqueue_batch-IsBatchOf_example =
    enqueue_batch-IsBatchOf plain_codec (λ x. refl) store batch.0 10 counts
      (new_delta_store-Inv (pos 10)) (change ∷ change ∷ []) batch_lem

-- ===== src/Deltas/Enqueue.antt =====
-- internal/store.go: `Enqueue` and `Get` of `DeltaMemoryStore`.
use deltaflow.Prelude.{
  ℕ, suc, ◌-◌, Str, Map, if◌then◌else◌, not, Option, none, some, [], is_empty, lookup, insert,
  length, codes,
}
use deltaflow.Model.{
  Time, Delta, Codec, Ctx, delta_id_provided, Result, ok, err, nil_dereference, diverges,
}
use deltaflow.Ids.{next_free}
use deltaflow.Dedup.{compute_dedup_key, projection_key_hash}
use deltaflow.Deltas.State.{DeltaStore, with_defaults}

-- The delta with its identifier, defaults, key hash and dedup key.
abbrev pub enqueued : Codec → Delta → Str → Str → Time → Delta
enqueued c delta id hash now = record (with_defaults delta id now) {
  projection_key_hash = hash;
  dedup_key =
      if not (is_empty delta.dedup_window)
      then compute_dedup_key c delta.dedup_window delta.projection_type hash
      else [];
}

abbrev pub remember : Str → Str → Map Str → Map Str
remember key id dedup = if not (is_empty key) then insert key id dedup else dedup

abbrev pub store_delta : DeltaStore → Delta → ℕ → DeltaStore
store_delta s delta n = record s {
  next_id = n;
  deltas = insert delta.id delta s.deltas;
  dedup = remember delta.dedup_key delta.id s.dedup;
}

-- From the dedup test on. A duplicate gives the number back, and answers the stored delta, which is
-- nil if the index named a missing one.
unfoldable pub enqueue_hashed : DeltaStore → Delta → ℕ → DeltaStore × Result (Option Delta)
enqueue_hashed s delta n =
    if not (is_empty delta.dedup_window)
    then elim (lookup delta.dedup_key s.dedup) [
      | some id ↦ (record s { next_id = n - 1 }, ok (lookup id s.deltas))
      | none ↦ (store_delta s delta n, ok (some delta))
    ]
    else (store_delta s delta n, ok (some delta))

-- From the key hash on, with the number and the identifier of the delta. An error of the key's
-- encoding comes after the number was taken.
unfoldable pub enqueue_numbered :
    Codec → DeltaStore → Delta → ℕ → Str → Time → Result Str → DeltaStore × Result (Option Delta)
unfolding enqueue_hashed
enqueue_numbered c s delta n id now (ok hash) = enqueue_hashed s (enqueued c delta id hash now) n
enqueue_numbered c s delta n id now (err e) = (record s { next_id = n }, err e)
enqueue_numbered c s delta n id now nil_dereference = (record s { next_id = n }, nil_dereference)
enqueue_numbered c s delta n id now diverges = (record s { next_id = n }, diverges)

-- `Enqueue`
unfoldable pub enqueue :
    Ctx → Codec → DeltaStore → Delta → Time → DeltaStore × Result (Option Delta)
unfolding enqueue_numbered
enqueue (some e) c s delta now = (s, err e)
enqueue none c s delta now =
    if not (is_empty delta.id)
    then (s, err delta_id_provided)
    else elim (next_free (suc (length s.deltas)) (codes "delta-") s.next_id s.deltas) [
      | none ↦ (s, diverges)
      | some (n, id) ↦
          enqueue_numbered c s delta n id now (projection_key_hash c delta.projection_key)
    ]

-- `Get`
unfoldable pub get : Ctx → DeltaStore → Str → Result (Option Delta)
get (some e) s delta_id = err e
get none s delta_id = ok (lookup delta_id s.deltas)

-- ===== src/Dedup.antt =====
-- pkg/connectors/delta_store_base.go `ComputeDedupKey`, and `projectionKeyHash` of internal/store.go.
-- The digest is a parameter, and so is the JSON encoding of a projection key.
pub mod Injective
use deltaflow.Prelude.{ℕ, ◌/◌, ◌%◌, ◌^◌, Str, List, [], ◌∷◌, ◌++◌, length}
use deltaflow.Model.{Codec, ProjectionKey, Result, ok, ◌>>=◌}

-- `binary.BigEndian.PutUint32` of a number that was converted to `uint32`.
unfoldable pub put_uint32 : ℕ → Str
put_uint32 n =
    let v = n % 2 ^ 32 in (v / 2 ^ 24) ∷ (v / 2 ^ 16 % 256) ∷ (v / 2 ^ 8 % 256) ∷ (v % 256) ∷ []

-- One segment as it is written to the digest: its length, then its bytes.
unfoldable pub segment : Str → Str
unfolding put_uint32
segment value = put_uint32 (length value) ++ value

-- All that is written to the digest.
unfoldable pub dedup_preimage : Str → Str → Str → Str
unfolding segment
dedup_preimage window projection_type key_hash =
    segment window ++ (segment projection_type ++ segment key_hash)

-- `ComputeDedupKey`
unfoldable pub compute_dedup_key : Codec → Str → Str → Str → Str
unfolding dedup_preimage
compute_dedup_key codec window projection_type key_hash =
    codec.sha256_hex (dedup_preimage window projection_type key_hash)

-- `projectionKeyHash`
unfoldable pub projection_key_hash : Codec → ProjectionKey → Result Str
projection_key_hash codec key = do encoded ← codec.marshal key; ok (codec.sha256_hex encoded)

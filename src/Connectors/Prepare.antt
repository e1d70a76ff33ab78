-- ===== src/Connectors/Prepare.antt =====
-- pkg/connectors/job_store_base.go and delta_store_base.go: the configurations with their defaults,
-- and what is filled in before a job or a delta is written. The clock's moment is an argument.
use deltaflow.Prelude.{
  ℕ, ℤ, Str, Map, if◌then◌else◌, not, Option, none, some, List, [], ◌∷◌, is_empty, is_nonpos,
  to_count, Bool, true, false, length, ltb, str_eq, ◌==◌, ◌&&◌,
}
use deltaflow.Model.{
  Time, SyncJob, JobOrigin, unknown, Delta, Codec, Value, Ctx, outbox_job_needs_delta,
  dedup_window_required, mixed_dedup_windows, enqueue_batch_too_large, Result, ok, err, ◌>>=◌,
  is_outbox, is_zero, job_state_or_pending, delta_state_or_pending, default_max_enqueue_batch_size,
}
use deltaflow.Dedup.{compute_dedup_key, projection_key_hash}

-- `defaultJobStoreMaxAttempts`
abbrev pub default_job_store_max_attempts : ℕ
default_job_store_max_attempts = 5

-- `MaxAttempts` of `NewJobStoreBase`
abbrev pub configured_max_attempts : ℤ → ℕ
configured_max_attempts n = if is_nonpos n then default_job_store_max_attempts else to_count n

-- `MaxEnqueueBatchSize` of `NewDeltaStoreBase`
abbrev pub configured_max_batch_size : ℤ → ℕ
configured_max_batch_size n = if is_nonpos n then default_max_enqueue_batch_size else to_count n

-- `origin == ""`
abbrev pub origin_or_unknown : JobOrigin → JobOrigin
origin_or_unknown JobOrigin.unset = unknown
origin_or_unknown o = o

abbrev is_nil {ℓ} : {A : Type ℓ} → Option A → Bool
is_nil none = true
is_nil (some a) = false

-- The job with its defaults.
abbrev pub prepared_job : ℕ → SyncJob → Str → Time → SyncJob
prepared_job max_attempts job hash now = record job {
  projection_key_hash = hash;
  origin = origin_or_unknown job.origin;
  state = job_state_or_pending job.state;
  max_attempts = if job.max_attempts == 0 then max_attempts else job.max_attempts;
  available_at = if is_zero job.available_at then now else job.available_at;
  created_at = if is_zero job.created_at then now else job.created_at;
  updated_at = now;
}

-- `PrepareJobForCreate`
unfoldable pub prepare_job_for_create : Codec → ℕ → SyncJob → Time → Result SyncJob
prepare_job_for_create c max_attempts job now =
    projection_key_hash c job.projection_key >>= (λ hash.
      if is_outbox (origin_or_unknown job.origin) && is_nil job.delta_id
      then err outbox_job_needs_delta
      else ok (prepared_job max_attempts job hash now))

-- The delta with its defaults, its key hash and its dedup key.
abbrev pub prepared_delta : Codec → Delta → Str → Time → Delta
prepared_delta c delta hash now = record delta {
  state = delta_state_or_pending delta.state;
  occurred_at = if is_zero delta.occurred_at then now else delta.occurred_at;
  created_at = if is_zero delta.created_at then now else delta.created_at;
  projection_key_hash = hash;
  dedup_key =
      if not (is_empty delta.dedup_window)
      then compute_dedup_key c delta.dedup_window delta.projection_type hash
      else [];
}

-- `PrepareDeltaForEnqueue`: the delta, and the JSON texts of its key and its metadata.
unfoldable pub prepare_delta_for_enqueue :
    Codec → (Option (Map Value) → Result Str) → Delta → Time → Result (Delta × Str × Str)
prepare_delta_for_enqueue c marshal_metadata delta now = do
  hash ← projection_key_hash c delta.projection_key
  key ← c.marshal delta.projection_key
  metadata ← marshal_metadata delta.metadata
  ok (prepared_delta c delta hash now, key, metadata)

-- The loop of `ValidateEnqueueBatch`
unfoldable pub one_window : Str → List Delta → Result Str
one_window window [] = ok window
one_window window (delta ∷ deltas) =
    if is_empty delta.dedup_window
    then err dedup_window_required
    else if not (str_eq delta.dedup_window window)
    then err mixed_dedup_windows
    else one_window window deltas

-- `ValidateEnqueueBatch`
unfoldable pub validate_durable_batch : Ctx → List Delta → ℕ → Result Str
unfolding one_window
validate_durable_batch (some e) deltas max_size = err e
validate_durable_batch none [] max_size = ok []
validate_durable_batch none (delta ∷ deltas) max_size =
    if ltb max_size (length (delta ∷ deltas))
    then err enqueue_batch_too_large
    else if is_empty delta.dedup_window
    then err dedup_window_required
    else one_window delta.dedup_window deltas

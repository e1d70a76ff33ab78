-- ===== src/Deltas/State.antt =====
-- internal/store.go: the fields of `DeltaMemoryStore`. The clock is an argument of each operation.
use deltaflow.Prelude.{ℕ, ℤ, Str, Map, if◌then◌else◌, is_nonpos, to_count, []}
use deltaflow.Model.{Time, Delta, default_max_enqueue_batch_size, is_zero, delta_state_or_pending}

pub record DeltaStore : Type 0 where
  pub max_enqueue_batch_size : ℕ
  pub next_id : ℕ
  pub deltas : Map Delta
  pub dedup : Map Str

-- `NewDeltaMemoryStoreWithConfig`
unfoldable pub new_delta_store : ℤ → DeltaStore
new_delta_store max_size = record {
  max_enqueue_batch_size =
      if is_nonpos max_size then default_max_enqueue_batch_size else to_count max_size;
  next_id = 0;
  deltas = [];
  dedup = [];
}

-- The defaults that both kinds of enqueue fill in.
abbrev pub with_defaults : Delta → Str → Time → Delta
with_defaults delta id now = record delta {
  id = id;
  state = delta_state_or_pending delta.state;
  occurred_at = if is_zero delta.occurred_at then now else delta.occurred_at;
  created_at = if is_zero delta.created_at then now else delta.created_at;
}

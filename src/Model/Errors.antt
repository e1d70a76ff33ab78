-- ===== src/Model/Errors.antt =====
-- pkg/deltaflow/errors.go: the sentinel errors and their texts, and Go's pair of a value and an
-- error as a result.
use deltaflow.Prelude.{Str, codes, Option, none, some, ◌++◌, []}

-- `canceled` and `deadline_exceeded` are the errors of a context; `external` stands for any other
-- error, of a projector, an applier, the codec or a database, with its text.
pub data Error : Type 0 where
  projection_not_found delta_not_found job_not_found invalid_lock_for job_lease_not_owned : Error
  delta_id_provided dedup_window_required mixed_dedup_windows enqueue_batch_too_large : Error
  outbox_job_needs_delta job_id_provided delta_already_mapped invalid_lease_window : Error
  audit_reason_required job_lease_not_expired : Error
  canceled deadline_exceeded : Error
  lease_renewal_failed : Error → Error
  external : Str → Error

-- `err.Error()`
unfoldable pub error_text : Error → Str
error_text projection_not_found = codes "projection not found"
error_text delta_not_found = codes "delta not found"
error_text job_not_found = codes "job not found"
error_text invalid_lock_for = codes "lock duration must be positive"
error_text job_lease_not_owned = codes "job lease not owned"
error_text delta_id_provided = codes "delta id must be empty"
error_text dedup_window_required = codes "dedup window is required"
error_text mixed_dedup_windows = codes "enqueue batch must use one dedup window"
error_text enqueue_batch_too_large = codes "enqueue batch exceeds maximum size"
error_text outbox_job_needs_delta = codes "outbox job requires delta id"
error_text job_id_provided = codes "job id must be empty"
error_text delta_already_mapped = codes "delta already mapped to job"
error_text invalid_lease_window = codes "lease window must be non-negative"
error_text audit_reason_required = codes "audit reason is required"
error_text job_lease_not_expired = codes "job not eligible for expired lease action"
error_text canceled = codes "context canceled"
error_text deadline_exceeded = codes "context deadline exceeded"
error_text (lease_renewal_failed e) = codes "lease renewal failed: " ++ error_text e
error_text (external s) = s

-- `errorMessage`: a nil error has the empty text.
unfoldable pub error_message : Option Error → Str
unfolding error_text
error_message none = []
error_message (some e) = error_text e

-- `ctx.Err()` at the moment that the code asks for it.
abbrev pub Ctx : Type 0
Ctx = Option Error

-- `nil_dereference` is the panic of a nil pointer; `diverges` stands for a loop whose fuel ran out.
pub data Result {ℓ} (A : Type ℓ) : Type ℓ where
  ok : A → Result A
  err : Error → Result A
  nil_dereference diverges : Result A

infixl 5 ◌>>=◌
abbrev pub ◌>>=◌ {ℓ κ} : {A : Type ℓ} {B : Type κ} → Result A → (A → Result B) → Result B
ok a >>= f = f a
err e >>= f = err e
nil_dereference >>= f = nil_dereference
diverges >>= f = diverges

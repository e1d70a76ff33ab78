-- ===== src/Sqlite/Sql.antt =====
-- What the statements of pkg/connectors/sqlite mean, and the microseconds of ids.go. `NULL` is
-- `none`; a comparison with it holds of no row. The engine's errors are a parameter.
use deltaflow.Prelude.{
  ℕ, ◌*◌, ◌/◌, Str, Bool, true, false, if◌then◌else◌, Option, none, some, List, [], ◌∷◌, select,
  length, ltb, leb, str_eq,
}
use deltaflow.Model.{Time, Ctx, Error}

-- What one call meets: the state of its context when it is asked for the n-th time, and the error
-- of the n-th step that the engine takes for it. A step with an error leaves the tables as they are.
pub record Session : Type 0 where
  pub ctx : ℕ → Ctx
  pub fault : ℕ → Option Error

-- `microsFromTime`, counted from Go's zero time, which is a whole number of microseconds before the
-- epoch.
abbrev pub micros_from_time : Time → ℕ
micros_from_time t = t / 1000

-- `timeFromMicros`
abbrev pub time_from_micros : ℕ → Time
time_from_micros v = v * 1000

abbrev pub bool_to_int : Bool → ℕ
bool_to_int true = 1
bool_to_int false = 0

-- `timePtrMicros`
abbrev pub time_ptr_micros : Option Time → Option ℕ
time_ptr_micros none = none
time_ptr_micros (some t) = some (micros_from_time t)

-- A nullable column as a pointer.
abbrev pub time_of_null : Option ℕ → Option Time
time_of_null none = none
time_of_null (some v) = some (time_from_micros v)

-- `column > ?`
abbrev pub null_gt : Option ℕ → ℕ → Bool
null_gt none x = false
null_gt (some v) x = ltb x v

-- `column <= ?`
abbrev pub null_le : Option ℕ → ℕ → Bool
null_le none x = false
null_le (some v) x = leb v x

-- `column IS NULL`
abbrev pub is_null {ℓ} : {A : Type ℓ} → Option A → Bool
is_null none = true
is_null (some v) = false

-- `column = ?` of a text column
abbrev pub null_eq : Option Str → Str → Bool
null_eq none x = false
null_eq (some v) x = str_eq v x

module _ {R : Type 0} where
  -- `UPDATE ... SET ... WHERE ...`
  unfoldable pub update_where : (R → Bool) → (R → R) → List R → List R
  update_where condition set [] = []
  update_where condition set (row ∷ rows) =
      (if condition row then set row else row) ∷ update_where condition set rows

  -- `RowsAffected` of the update
  unfoldable pub affected : (R → Bool) → List R → ℕ
  affected condition rows = length (select condition rows)

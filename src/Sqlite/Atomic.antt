-- ===== src/Sqlite/Atomic.antt =====
-- Failed transactions of pkg/connectors/sqlite/delta_store.go and dispatch_store.go, and an `Enqueue`
-- that meets its dedup key.
use deltaflow.Prelude.{
  subst, ℕ, Str, true, false, ◌≡◌, refl, ap, ◌∙◌, ◌⊎◌, inl, Option, none, some, List, [], ◌∷◌,
  select, is_empty, arith,
}
use deltaflow.Model.{Time, Delta, Error, Result, ok, err, nil_dereference, diverges}
use deltaflow.Sqlite.Sql.{Session}
use deltaflow.Sqlite.Rows.{Json}
use deltaflow.Sqlite.DeltaRows.{DeltaRow, scan_delta}
use deltaflow.Sqlite.Deltas.{
  enqueue, enqueue_row, insert_delta, get_delta, delta_row, existing_id, read_delta_back,
  after_insert, has_dedup_key, has_delta_id, any_delta,
}
use deltaflow.Sqlite.Refinement.{IsQuiet}

abbrev pub IsFailure : {A : Type 0} → Result A → Type 0
IsFailure (ok a) = ⊥
IsFailure _ = Unit

-- Either the answer is no value and the state is as it was, or the state and the answered value are
-- related.
abbrev pub IsAllOrNothing : {S A : Type 0} → S → (S → A → Type 0) → S × Result A → Type 0
IsAllOrNothing {A = A} s Related r =
    ((r.0 ≡ s) × IsFailure r.1) ⊎ ((a : A) × (r.1 ≡ ok a) × Related r.0 a)

-- An answered value is related to the state that is left.
abbrev pub WhenOk : {S A : Type 0} → (S → A → Type 0) → S × Result A → Type 0
WhenOk Related (s, ok a) = Related s a
WhenOk Related (s, _) = Unit

pub WhenOk-ok :
    {S A : Type 0} (Related : S → A → Type 0) (r : S × Result A) (a : A)
    → WhenOk Related r
    → r.1 ≡ ok a
    → Related r.0 a
WhenOk-ok Related (s, ok b) a h e = let same : b ≡ a = ground arith in subst (Related s) same h
WhenOk-ok Related (s, err x) a h e = cc
WhenOk-ok Related (s, nil_dereference) a h e = cc
WhenOk-ok Related (s, diverges) a h e = cc

pub WhenOk-both :
    {S A : Type 0} (P Q R : S → A → Type 0) (r : S × Result A)
    → ((s : S) (a : A) → P s a → Q s a → R s a)
    → WhenOk P r
    → WhenOk Q r
    → WhenOk R r
WhenOk-both P Q R (s, ok a) f p q = f s a p q
WhenOk-both P Q R (s, err e) f p q = tt
WhenOk-both P Q R (s, nil_dereference) f p q = tt
WhenOk-both P Q R (s, diverges) f p q = tt

-- A step that may fail, and what follows it.
abbrev pub after_step : {S A : Type 0} → S → Option Error → S × Result A → S × Result A
after_step s fault r = elim fault [ some e ↦ (s, err e) | none ↦ r ]

-- A result, and what follows it.
abbrev pub after_result : {S A X : Type 0} → S → Result X → (X → S × Result A) → S × Result A
after_result s r next = elim r [
  | ok x ↦ next x
  | err e ↦ (s, err e)
  | nil_dereference ↦ (s, nil_dereference)
  | diverges ↦ (s, diverges)
]

module _ {S A : Type 0} (Fine : S × Result A → Type 0) (s : S)
    (failure : (r : Result A) → IsFailure r → Fine (s, r)) where
  pub after_step-Fine :
      (fault : Option Error) (r : S × Result A)
      → (fault ≡ none → Fine r)
      → Fine (after_step s fault r)
  after_step-Fine none r h = h refl
  after_step-Fine (some e) r h = failure (err e) tt

  pub after_result-Fine :
      {X : Type 0} (r : Result X) (next : X → S × Result A)
      → ((x : X) → r ≡ ok x → Fine (next x))
      → Fine (after_result s r next)
  after_result-Fine (ok x) next h = h x refl
  after_result-Fine (err e) next h = failure (err e) tt
  after_result-Fine nil_dereference next h = failure nil_dereference tt
  after_result-Fine diverges next h = failure diverges tt

pub WhenOk-failure :
    {S A : Type 0} (Related : S → A → Type 0) (s : S) (r : Result A)
    → IsFailure r
    → WhenOk Related (s, r)
WhenOk-failure Related s (ok a) h = elim h [ ]
WhenOk-failure Related s (err e) h = tt
WhenOk-failure Related s nil_dereference h = tt
WhenOk-failure Related s diverges h = tt

pub IsAllOrNothing-failure :
    {S A : Type 0} (Related : S → A → Type 0) (s : S) (r : Result A)
    → IsFailure r
    → IsAllOrNothing s Related (s, r)
IsAllOrNothing-failure Related s r h = inl (refl, h)

module _ (json : Json) (taken : Error) (io : Session) (quiet : IsQuiet io)
    (rows : List DeltaRow) where
  conflicts-true :
      (o : Option Str) (key : Str) (old : DeltaRow) (rest : List DeltaRow)
      → o ≡ some key
      → select (has_dedup_key key) rows ≡ old ∷ rest
      → (elim o [ none ↦ false | some k ↦ any_delta (has_dedup_key k) rows ]) ≡ true
  conflicts-true none key old rest h here = cc
  conflicts-true (some k) key old rest h here =
      let same : k ≡ key = ground arith in rw (same, here) (ground arith)

  existing_id_lem :
      (key : Str) (old : DeltaRow) (rest : List DeltaRow)
      → select (has_dedup_key key) rows ≡ old ∷ rest
      → existing_id io rows key ≡ ok old.id
  existing_id_lem key old rest here = rw (quiet.fault 2, here, existing_id) refl

  read_delta_back_lem :
      (found : Delta) (old : DeltaRow)
      → select (has_delta_id old.id) rows ≡ old ∷ []
      → scan_delta json old ≡ ok found
      → read_delta_back json io rows old.id ≡ ok found
  unfolding get_delta
  read_delta_back_lem found old there scanned =
      rw (quiet.ctx 1, quiet.fault 3, there, scanned, get_delta, read_delta_back) refl

  -- Where no step of the engine fails, `Enqueue` of the SQLite store of a delta whose dedup key a
  -- row has already adds no row, and answers the delta of that row, if no other row has its
  -- identifier.
  pub enqueue-duplicate :
      (delta found : Delta) (random : Result Str) (now : Time) (row old : DeltaRow)
      (rest : List DeltaRow) (key : Str)
      → is_empty delta.id ≡ true
      → delta_row json delta random now ≡ ok (row, key)
      → row.dedup_key ≡ some key
      → is_empty key ≡ false
      → select (has_dedup_key key) rows ≡ old ∷ rest
      → select (has_delta_id old.id) rows ≡ old ∷ []
      → scan_delta json old ≡ ok found
      → enqueue json taken io rows delta random now ≡ (rows, ok found)
  unfolding enqueue enqueue_row insert_delta
  enqueue-duplicate delta found random now row old rest key unnamed prepared keyed given here there
        scanned =
      rw (quiet.ctx 0, unnamed, prepared, enqueue) done
    where
      skipped : insert_delta taken rows row ≡ (rows, ok 0)
      skipped = rw (conflicts-true row.dedup_key key old rest keyed here, insert_delta) refl

      answered : after_insert json io rows row.id key 0 ≡ ok found
      answered =
          rw (given, existing_id_lem key old rest here, after_insert)
            (read_delta_back_lem found old there scanned)

      done : enqueue_row json taken io rows row key ≡ (rows, ok found)
      done =
          rw (quiet.fault 0, skipped, quiet.fault 1, enqueue_row)
            (ap (λ (r : List DeltaRow × Result ℕ). (r.0, after_insert json io r.0 row.id key 0))
                skipped
              ∙ ap (λ a. (rows, a)) answered)

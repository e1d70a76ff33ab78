-- ===== src/Sqlite/Tables.antt =====
-- A table of pkg/connectors/sqlite next to a Go map: the rows stand, one for one, for the entries of
-- the map, and an update of the row of one key does to them what a write to the map does.
use deltaflow.Prelude.{
  ℕ, suc, Str, Map, Bool, true, false, ◌≡◌, refl, sym, ◌∙◌, ap, subst, inl, inr, none, some, List,
  [], ◌∷◌, ◌&&◌, ltb, length, select, lookup, insert, Keys, str_eq, str_eq_iff, Bool-cases, arith,
}
use deltaflow.Sqlite.Sql.{update_where, affected}

abbrev pub has_row : {R : Type 0} → (R → Str) → Str → List R → Bool
has_row row_id id rows = ltb 0 (length (select (λ row. str_eq (row_id row) id) rows))

ltb-suc : (n : ℕ) → ltb 0 (suc n) ≡ true
ltb-suc n = ground arith

module _ {R V : Type 0} (row_id : R → Str) (IsRowOf : R → V → Type 0) where
  abbrev pub IsTableOf : List R → Map V → Type 0
  IsTableOf [] [] = Unit {0}
  IsTableOf [] (e ∷ m) = ⊥
  IsTableOf (row ∷ rows) [] = ⊥
  IsTableOf (row ∷ rows) ((k, v) ∷ m) = (row_id row ≡ k) × IsRowOf row v × IsTableOf rows m

  -- A statement that updates the row of a key where a test on its value allows it.
  pub record IsUpdateOf (id : Str) (p : R → Bool) (set : R → R) (applies : V → Bool) (fn : V → V)
      : Type 0 where
    pub guard : (row : R) (v : V) → IsRowOf row v → p row ≡ (str_eq (row_id row) id && applies v)
    pub keeps_id : (row : R) → row_id (set row) ≡ row_id row
    pub writes : (row : R) (v : V) → IsRowOf row v → IsRowOf (set row) (fn v)

  pub data Update (id : Str) (p : R → Bool) (set : R → R) (applies : V → Bool) (fn : V → V)
      (rows : List R) (m : Map V) : Type 0 where
    missing :
        lookup id m ≡ none
        → update_where p set rows ≡ rows
        → affected p rows ≡ 0
        → has_row row_id id rows ≡ false
        → Update id p set applies fn rows m
    refused :
        (v : V)
        → lookup id m ≡ some v
        → applies v ≡ false
        → update_where p set rows ≡ rows
        → affected p rows ≡ 0
        → has_row row_id id rows ≡ true
        → Update id p set applies fn rows m
    applied :
        (v : V)
        → lookup id m ≡ some v
        → applies v ≡ true
        → affected p rows ≡ 1
        → IsTableOf (update_where p set rows) (insert id (fn v) m)
        → Update id p set applies fn rows m

  module _ {id : Str} {p : R → Bool} {set : R → R} {applies : V → Bool} {fn : V → V}
      (u : IsUpdateOf id p set applies fn) where
    guard-apart :
        (row : R) (v : V) (k : Str)
        → row_id row ≡ k
        → IsRowOf row v
        → str_eq k id ≡ false
        → (str_eq (row_id row) id ≡ false) × (p row ≡ false)
    guard-apart row v k named is apart =
        let away : str_eq (row_id row) id ≡ false = rw named apart in
        (away, rw (u.guard row v is, away) refl)

    update-missing :
        (rows : List R) (m : Map V)
        → IsTableOf rows m
        → lookup id m ≡ none
        → (update_where p set rows ≡ rows)
          × (affected p rows ≡ 0)
          × (has_row row_id id rows ≡ false)
    unfolding lookup update_where affected
    update-missing [] [] t h = (refl, refl, refl)
    update-missing [] (e ∷ m) t h = elim t [ ]
    update-missing (row ∷ rows) [] t h = elim t [ ]
    update-missing (row ∷ rows) ((k, v) ∷ m) t h = elim (Bool-cases (str_eq k id)) [
      | inl e ↦ let absurdity : some v ≡ none = rw e at h in cc
      | inr e ↦
          let (apart, idle) = guard-apart row v k t.0 t.1 e in
          let (same, none_there, gone) = update-missing rows m t.2 (rw e at h) in
          (
            rw (idle, update_where) (ap (◌∷◌ row) same),
            rw (idle, affected) none_there,
            rw (apart, select) gone,
          )
    ]

    Update-cons :
        (row : R) (v : V) (rows : List R) (m : Map V) (k : Str)
        → row_id row ≡ k
        → IsRowOf row v
        → str_eq k id ≡ false
        → Update id p set applies fn rows m
        → Update id p set applies fn (row ∷ rows) ((k, v) ∷ m)
    unfolding lookup insert update_where affected
    Update-cons row v rows m k named is apart (missing absent same none_there gone) =
        let (away, idle) = guard-apart row v k named is apart in
        missing (rw apart absent) (rw (idle, update_where) (ap (◌∷◌ row) same))
          (rw (idle, affected) none_there) (rw (away, select) gone)
    Update-cons row v rows m k named is apart (refused w found denied same none_there there) =
        let (away, idle) = guard-apart row v k named is apart in
        refused w (rw apart found) denied (rw (idle, update_where) (ap (◌∷◌ row) same))
          (rw (idle, affected) none_there) (rw (away, select) there)
    Update-cons row v rows m k named is apart (applied w found allowed one t) =
        let (away, idle) = guard-apart row v k named is apart in
        applied w (rw apart found) allowed (rw (idle, affected) one)
          (rw (idle, apart, update_where) (named, is, t))

    pub update_lem :
        (rows : List R) (m : Map V) → IsTableOf rows m → Keys m → Update id p set applies fn rows m
    unfolding lookup insert update_where affected
    update_lem [] [] t unique = missing refl refl refl refl
    update_lem [] (e ∷ m) t unique = elim t [ ]
    update_lem (row ∷ rows) [] t unique = elim t [ ]
    update_lem (row ∷ rows) ((k, v) ∷ m) t unique = elim (Bool-cases (str_eq k id)) [
      | inl e ↦
          let same : k ≡ id = (str_eq_iff k id).0 e in
          let here : str_eq (row_id row) id ≡ true = rw t.0 e in
          let absent : lookup id m ≡ none = rw (← same) unique.0 in
          let (rest, none_there, gone) = update-missing rows m t.2 absent in
          elim (Bool-cases (applies v)) [
            | inl allowed ↦
                let hit : p row ≡ true = rw (u.guard row v t.1, here) allowed in
                applied v (rw e refl) allowed (rw (hit, affected) (ap suc none_there)) (
                  rw (hit, e, update_where)
                    (
                      u.keeps_id row ∙ t.0,
                      u.writes row v t.1,
                      subst (λ x. IsTableOf x m) (sym rest) t.2,
                    ))
            | inr denied ↦
                let idle : p row ≡ false = rw (u.guard row v t.1, here) denied in
                refused v (rw e refl) denied (rw (idle, update_where) (ap (◌∷◌ row) rest))
                  (rw (idle, affected) none_there) (rw (here, select) (ltb-suc _))
          ]
      | inr e ↦ Update-cons row v rows m k t.0 t.1 e (update_lem rows m t.2 unique.1)
    ]

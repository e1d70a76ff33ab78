-- ===== src/Prelude/Entries.antt =====
-- The entries of a map as a list that is filtered, sorted and cut: they stay entries of the map,
-- with different keys.
use Prim.Native.Nat.{ℕ, zero, suc}
use mathlib.Core.Path.{◌≡◌, refl, ap}
use mathlib.Core.Logic.{inl, inr}
use mathlib.Core.Bool.{Bool, true, false}
use mathlib.Core.Option.{none, some}
use mathlib.Core.List.{List, [], ◌∷◌, map}
use native.Mathlib.Omega.{arith}
use deltaflow.Prelude.Tests.{Bool-cases}
use deltaflow.Prelude.Lists.{All, All-map, All-take, select, take}
use deltaflow.Prelude.Text.{Str, str_eq, str_eq_iff}
use deltaflow.Prelude.Maps.{Map, lookup, insert, Keys, lookup-insert}
use deltaflow.Prelude.Sort.{insert_by, sort_by, All-insert_by, All-sort_by}

pub All-select {ℓ κ} :
    {A : Type ℓ} (P : A → Type κ) (p : A → Bool) (xs : List A)
    → All P xs
    → All (λ x. P x × (p x ≡ true)) (select p xs)
All-select P p [] h = tt
All-select P p (x ∷ xs) h = elim (Bool-cases (p x)) [
  | inl e ↦ rw e ((h.0, e), All-select P p xs h.1)
  | inr e ↦ rw e (All-select P p xs h.1)
]

-- What holds of the elements that pass holds, under the test, of all.
pub select-All {ℓ κ} :
    {A : Type ℓ} (P : A → Type κ) (p : A → Bool) (xs : List A)
    → All P (select p xs)
    → All (λ x. p x ≡ true → P x) xs
select-All P p [] h = tt
select-All P p (x ∷ xs) h = elim (Bool-cases (p x)) [
  | inl e ↦ let h' : P x × All P (select p xs) = rw e at h in ((λ t. h'.0), select-All P p xs h'.1)
  | inr e ↦ let h' : All P (select p xs) = rw e at h in ((λ t. cc), select-All P p xs h')
]

pub take-map {ℓ κ} :
    {A : Type ℓ} {B : Type κ} (f : A → B) (n : ℕ) (xs : List A)
    → take n (map f xs) ≡ map f (take n xs)
take-map f zero xs = refl
take-map f (suc n) [] = refl
take-map f (suc n) (x ∷ xs) = ap (◌∷◌ (f x)) (take-map f n xs)

pub str_eq_comm : (a b : Str) → str_eq a b ≡ false → str_eq b a ≡ false
str_eq_comm a b h = ground (arith, str_eq_iff a b, str_eq_iff b a)

module _ {ℓ} {V : Type ℓ} where
  abbrev pub Apart : Str × V → Str × V → Type 0
  Apart e f = str_eq e.0 f.0 ≡ false

  abbrev pub Distinct : List (Str × V) → Type 0
  Distinct [] = Unit {0}
  Distinct (e ∷ es) = All (Apart e) es × Distinct es

  abbrev pub IsEntry : Map V → Str × V → Type ℓ
  IsEntry m e = lookup e.0 m ≡ some e.1

  IsEntry-cons :
      (j : Str) (w : V) (m : Map V) (e : Str × V)
      → lookup j m ≡ none
      → IsEntry m e
      → IsEntry ((j, w) ∷ m) e
  unfolding lookup
  IsEntry-cons j w m (k, v) absent h = elim (Bool-cases (str_eq j k)) [
    | inl t ↦
        let same : j ≡ k = (str_eq_iff j k).0 t in
        let gone : lookup k m ≡ none = rw (← same) absent in cc
    | inr t ↦ rw t h
  ]

  -- With different keys, each entry is the one that its key finds.
  pub Keys-IsEntry : (m : Map V) → Keys m → All (IsEntry m) m
  unfolding lookup
  Keys-IsEntry [] h = tt
  Keys-IsEntry ((j, w) ∷ m) h = (
    rw (str_eq_refl_at j) refl,
    All-map (IsEntry m) (IsEntry ((j, w) ∷ m)) m (λ e. IsEntry-cons j w m e h.0)
        (Keys-IsEntry m h.1),
  )
    where
      str_eq_refl_at : (k : Str) → str_eq k k ≡ true
      str_eq_refl_at k = (str_eq_iff k k).1 refl

  absent-Apart : (k : Str) (v : V) (m : Map V) → lookup k m ≡ none → All (Apart (k, v)) m
  unfolding lookup
  absent-Apart k v [] h = tt
  absent-Apart k v ((j, w) ∷ m) h = elim (Bool-cases (str_eq j k)) [
    | inl t ↦ let absurdity : some w ≡ none = rw t at h in cc
    | inr t ↦ (str_eq_comm j k t, absent-Apart k v m (rw t at h))
  ]

  pub Keys-Distinct : (m : Map V) → Keys m → Distinct m
  Keys-Distinct [] h = tt
  Keys-Distinct ((k, v) ∷ m) h = (absent-Apart k v m h.0, Keys-Distinct m h.1)

  All-select_only {κ} :
      (P : Str × V → Type κ) (p : Str × V → Bool) (m : List (Str × V))
      → All P m
      → All P (select p m)
  All-select_only P p m h =
      All-map (λ x. P x × (p x ≡ true)) P (select p m) (λ x g. g.0) (All-select P p m h)

  pub Distinct-select :
      (p : Str × V → Bool) (m : List (Str × V)) → Distinct m → Distinct (select p m)
  Distinct-select p [] h = tt
  Distinct-select p (e ∷ m) h = elim (Bool-cases (p e)) [
    | inl t ↦ rw t (All-select_only (Apart e) p m h.0, Distinct-select p m h.1)
    | inr t ↦ rw t (Distinct-select p m h.1)
  ]

  Distinct-insert_by :
      (less : Str × V → Str × V → Bool) (e : Str × V) (es : List (Str × V))
      → All (Apart e) es
      → Distinct es
      → Distinct (insert_by less e es)
  unfolding insert_by
  Distinct-insert_by less e [] a h = (tt, tt)
  Distinct-insert_by less e (f ∷ es) a h = elim (Bool-cases (less f e)) [
    | inl t ↦ rw t (
      All-insert_by less (Apart f) e es (str_eq_comm e.0 f.0 a.0) h.0,
      Distinct-insert_by less e es a.1 h.1,
    )
    | inr t ↦ rw t (a, h)
  ]

  pub Distinct-sort_by :
      (less : Str × V → Str × V → Bool) (es : List (Str × V))
      → Distinct es
      → Distinct (sort_by less es)
  unfolding sort_by
  Distinct-sort_by less [] h = tt
  Distinct-sort_by less (e ∷ es) h =
      Distinct-insert_by less e (sort_by less es) (All-sort_by less (Apart e) es h.0)
        (Distinct-sort_by less es h.1)

  pub Distinct-take : (n : ℕ) (es : List (Str × V)) → Distinct es → Distinct (take n es)
  Distinct-take zero es h = tt
  Distinct-take (suc n) [] h = tt
  Distinct-take (suc n) (e ∷ es) h = (All-take (Apart e) n es h.0, Distinct-take n es h.1)

  -- A write at another key leaves an entry where it is.
  pub insert-IsEntry :
      (k : Str) (v : V) (m : Map V) (e : Str × V)
      → str_eq k e.0 ≡ false
      → IsEntry m e
      → IsEntry (insert k v m) e
  insert-IsEntry k v m e apart h = rw (lookup-insert k e.0 v m, apart) h

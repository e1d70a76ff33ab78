-- ===== src/Prelude/Sort.antt =====
-- `sort.Slice` by a comparison that is a total order on the keys of the elements.
use Prim.Native.Nat.{suc}
use mathlib.Core.Path.{◌≡◌, refl}
use mathlib.Core.Logic.{inl, inr}
use mathlib.Core.Bool.{Bool, true, false}
use mathlib.Core.List.{List, [], ◌∷◌}
use native.Mathlib.Omega.{arith}
use deltaflow.Prelude.Tests.{if◌then◌else◌, Bool-cases}
use deltaflow.Prelude.Lists.{length, All, All-map}
use deltaflow.Prelude.Text.{Str, str_lt, str_lt_asym, str_lt_cotrans}

module _ {ℓ} {A : Type ℓ} (less : A → A → Bool) where
  unfoldable pub insert_by : A → List A → List A
  insert_by x [] = x ∷ []
  insert_by x (y ∷ ys) = if less y x then y ∷ insert_by x ys else x ∷ y ∷ ys

  unfoldable pub sort_by : List A → List A
  unfolding insert_by
  sort_by [] = []
  sort_by (x ∷ xs) = insert_by x (sort_by xs)

  -- Nothing that stands later in the list is before an element.
  abbrev pub IsSortedBy : List A → Type 0
  IsSortedBy [] = Unit {0}
  IsSortedBy (x ∷ xs) = All (λ y. less y x ≡ false) xs × IsSortedBy xs

  pub All-insert_by {κ} :
      (P : A → Type κ) (x : A) (xs : List A) → P x → All P xs → All P (insert_by x xs)
  unfolding insert_by
  All-insert_by P x [] p h = (p, tt)
  All-insert_by P x (y ∷ ys) p h = elim (Bool-cases (less y x)) [
    | inl e ↦ rw e (h.0, All-insert_by P x ys p h.1)
    | inr e ↦ rw e (p, h)
  ]

  pub All-sort_by {κ} : (P : A → Type κ) (xs : List A) → All P xs → All P (sort_by xs)
  unfolding sort_by
  All-sort_by P [] h = tt
  All-sort_by P (x ∷ xs) h = All-insert_by P x (sort_by xs) h.0 (All-sort_by P xs h.1)

  insert_by-All {κ} :
      (P : A → Type κ) (x : A) (xs : List A) → All P (insert_by x xs) → P x × All P xs
  unfolding insert_by
  insert_by-All P x [] h = h
  insert_by-All P x (y ∷ ys) h = elim (Bool-cases (less y x)) [
    | inl e ↦
        let h' : P y × All P (insert_by x ys) = rw e at h in
        let (p, rest) = insert_by-All P x ys h'.1 in (p, (h'.0, rest))
    | inr e ↦ let h' : P x × (P y × All P ys) = rw e at h in h'
  ]

  -- Sorting loses no element.
  pub sort_by-All {κ} : (P : A → Type κ) (xs : List A) → All P (sort_by xs) → All P xs
  unfolding sort_by
  sort_by-All P [] h = tt
  sort_by-All P (x ∷ xs) h =
      let (p, rest) = insert_by-All P x (sort_by xs) h in (p, sort_by-All P xs rest)

  length-insert_by : (x : A) (xs : List A) → length (insert_by x xs) ≡ suc (length xs)
  unfolding insert_by
  length-insert_by x [] = refl
  length-insert_by x (y ∷ ys) = ground (arith, length-insert_by x ys)

  pub length-sort_by : (xs : List A) → length (sort_by xs) ≡ length xs
  unfolding sort_by
  length-sort_by [] = refl
  length-sort_by (x ∷ xs) = omega (arith, length-insert_by x (sort_by xs), length-sort_by xs)

module _ {ℓ} {A : Type ℓ} (less : A → A → Bool) (key : A → Str)
    (less_key : (a b : A) → less a b ≡ str_lt (key a) (key b)) where
  less_asym : (a b : A) → less a b ≡ true → less b a ≡ false
  less_asym a b h = rw (less_key b a) (str_lt_asym (key a) (key b) (rw less_key at h))

  less_cotrans : (a b c : A) → less a b ≡ false → less b c ≡ false → less a c ≡ false
  less_cotrans a b c h k =
      rw (less_key a c)
        (str_lt_cotrans (key a) (key b) (key c) (rw less_key at h) (rw less_key at k))

  insert_by-IsSortedBy :
      (x : A) (xs : List A) → IsSortedBy less xs → IsSortedBy less (insert_by less x xs)
  unfolding insert_by
  insert_by-IsSortedBy x [] h = (tt, tt)
  insert_by-IsSortedBy x (y ∷ ys) h = elim (Bool-cases (less y x)) [
    | inl e ↦ rw e (
      All-insert_by less (λ z. less z y ≡ false) x ys (less_asym y x e) h.0,
      insert_by-IsSortedBy x ys h.1,
    )
    | inr e ↦ rw e (
      (
        e,
        All-map (λ z. less z y ≡ false) (λ z. less z x ≡ false) ys (λ z g. less_cotrans z y x g e)
            h.0,
      ),
      h,
    )
  ]

  pub sort_by-IsSortedBy : (xs : List A) → IsSortedBy less (sort_by less xs)
  unfolding sort_by
  sort_by-IsSortedBy [] = tt
  sort_by-IsSortedBy (x ∷ xs) = insert_by-IsSortedBy x (sort_by less xs) (sort_by-IsSortedBy xs)

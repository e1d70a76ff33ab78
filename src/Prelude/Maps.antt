-- ===== src/Prelude/Maps.antt =====
-- Go maps with string keys as association lists.
use Prim.Native.Nat.{◌≤◌, ◌<◌}
use mathlib.Core.Path.{◌≡◌, refl}
use mathlib.Core.Logic.{◌≢◌, inl, inr}
use mathlib.Core.Bool.{Bool, true, false}
use mathlib.Core.Option.{Option, none, some}
use mathlib.Core.List.{List, [], ◌∷◌}
use native.Mathlib.Omega.{arith}
use deltaflow.Prelude.Tests.{if◌then◌else◌, Bool-cases}
use deltaflow.Prelude.Lists.{length, All}
use deltaflow.Prelude.Text.{Str, str_eq, str_eq_iff, str_eq_refl}

abbrev pub Map {ℓ} : Type ℓ → Type ℓ
Map V = List (Str × V)

module _ {ℓ} {V : Type ℓ} where
  -- `v, ok := m[k]`
  unfoldable pub lookup : Str → Map V → Option V
  lookup k [] = none
  lookup k ((j, v) ∷ m) = if str_eq j k then some v else lookup k m

  -- `m[k] = v`
  unfoldable pub insert : Str → V → Map V → Map V
  insert k v [] = (k, v) ∷ []
  insert k v ((j, w) ∷ m) = if str_eq j k then (j, v) ∷ m else (j, w) ∷ insert k v m

  -- `_, ok := m[k]`
  unfoldable pub has : Str → Map V → Bool
  has k [] = false
  has k ((j, v) ∷ m) = if str_eq j k then true else has k m

  pub lookup-insert :
      (k j : Str) (v : V) (m : Map V)
      → lookup j (insert k v m) ≡ (if str_eq k j then some v else lookup j m)
  unfolding lookup insert
  lookup-insert k j v [] = refl
  lookup-insert k j v ((i, w) ∷ m) =
      ground (arith, str_eq_iff k j, str_eq_iff i k, str_eq_iff i j, lookup-insert k j v m)

  pub lookup-insert_self : (k : Str) (v : V) (m : Map V) → lookup k (insert k v m) ≡ some v
  lookup-insert_self k v m = rw (lookup-insert k k v m, str_eq_refl k)

  pub has-false : (k : Str) (m : Map V) → has k m ≡ false → lookup k m ≡ none
  unfolding lookup has
  has-false k [] h = refl
  has-false k ((j, v) ∷ m) h = ground (arith, has-false k m)

  pub has-true : (k : Str) (m : Map V) → has k m ≡ true → (v : V) × (lookup k m ≡ some v)
  unfolding lookup has
  has-true k [] h = cc
  has-true k ((j, v) ∷ m) h = elim (Bool-cases (str_eq j k)) [
    | inl e ↦ (v, rw e)
    | inr e ↦ let (u, found) = has-true k m (ground arith) in (u, rw e found)
  ]

  pub has_of_lookup : (k : Str) (v : V) (m : Map V) → lookup k m ≡ some v → has k m ≡ true
  unfolding lookup has
  has_of_lookup k v [] h = cc
  has_of_lookup k v ((j, w) ∷ m) h = ground (arith, has_of_lookup k v m)

  pub has-insert :
      (k j : Str) (v : V) (m : Map V)
      → has j (insert k v m) ≡ (if str_eq k j then true else has j m)
  unfolding has insert
  has-insert k j v [] = refl
  has-insert k j v ((i, w) ∷ m) =
      ground (arith, str_eq_iff k j, str_eq_iff i k, str_eq_iff i j, has-insert k j v m)

  -- A write to a key that is there changes no membership.
  pub has-insert_old :
      (k j : Str) (v w : V) (m : Map V) → lookup k m ≡ some w → has j (insert k v m) ≡ has j m
  has-insert_old k j v w m h =
      ground (arith, has-insert k j v m, str_eq_iff k j, has_of_lookup k w m h)

  -- No key stands twice.
  abbrev pub Keys : Map V → Type ℓ
  Keys [] = Unit
  Keys ((k, v) ∷ m) = (lookup k m ≡ none) × Keys m

  pub insert-Keys : (k : Str) (v : V) (m : Map V) → Keys m → Keys (insert k v m)
  unfolding insert lookup
  insert-Keys k v [] h = (refl, tt)
  insert-Keys k v ((j, w) ∷ m) h =
      ground (arith, str_eq_iff j k, str_eq_iff k j, lookup-insert k j v m, insert-Keys k v m h.1)

  -- What holds of every entry holds of the entry that is found.
  pub All-lookup {κ} :
      (P : Str × V → Type κ) (k : Str) (v : V) (m : Map V)
      → All P m
      → lookup k m ≡ some v
      → P (k, v)
  unfolding lookup
  All-lookup P k v [] h e = cc
  All-lookup P k v ((j, w) ∷ m) h e = elim (Bool-cases (str_eq j k)) [
    | inl t ↦
        let same : j ≡ k = (str_eq_iff j k).0 t in
        let found : w ≡ v = ground arith in rw (← same, ← found) h.0
    | inr t ↦ All-lookup P k v m h.1 (ground arith)
  ]

  -- A write of a value keeps what holds of all entries, if it holds of the new one.
  pub All-insert {κ} :
      (P : Str × V → Type κ) (k : Str) (v : V) (m : Map V)
      → All P m
      → P (k, v)
      → All P (insert k v m)
  unfolding insert
  All-insert P k v [] h p = (p, tt)
  All-insert P k v ((j, w) ∷ m) h p = elim (Bool-cases (str_eq j k)) [
    | inl t ↦ let same : j ≡ k = (str_eq_iff j k).0 t in rw t (rw (← same) at p, h.1)
    | inr t ↦ rw t (h.0, All-insert P k v m h.1 p)
  ]

  -- The map without a key.
  unfoldable pub remove : Str → Map V → Map V
  remove k [] = []
  remove k ((j, v) ∷ m) = if str_eq j k then remove k m else (j, v) ∷ remove k m

  pub has-remove : (k j : Str) (m : Map V) → k ≢ j → has j (remove k m) ≡ has j m
  unfolding has remove
  has-remove k j [] h = refl
  has-remove k j ((i, v) ∷ m) h = ground (arith, str_eq_iff i k, str_eq_iff i j, has-remove k j m h)

  pub length-remove-le : (k : Str) (m : Map V) → length (remove k m) ≤ length m
  unfolding remove
  length-remove-le k [] = omega arith
  length-remove-le k ((i, v) ∷ m) = ground (arith, length-remove-le k m)

  pub length-remove-lt : (k : Str) (m : Map V) → has k m ≡ true → length (remove k m) < length m
  unfolding has remove
  length-remove-lt k [] h = cc
  length-remove-lt k ((i, v) ∷ m) h = ground (arith, length-remove-lt k m, length-remove-le k m)

-- ===== src/Prelude/Text.antt =====
-- Go strings as lists of bytes: comparison, and `strings.TrimSpace`.
use Prim.Native.Nat.{ℕ}
use Prim.Native.Char.{code}
use Prim.Native.String.{String}
use mathlib.Core.Path.{◌≡◌, refl}
use mathlib.Core.Logic.{◌↔◌}
use mathlib.Core.Bool.{Bool, true, false}
use mathlib.Core.List.{List, [], ◌∷◌, reverse}
use native.Mathlib.Omega.{arith}
use deltaflow.Prelude.Tests.{ltb, leb, ◌==◌, ◌&&◌, ◌||◌, if◌then◌else◌}

abbrev pub Str : Type 0
Str = List ℕ

-- The bytes of an ASCII literal.
abbrev pub codes : String → Str
codes String.[] = []
codes (String.◌∷◌ c s) = code c ∷ codes s

abbrev pub is_empty : Str → Bool
is_empty [] = true
is_empty (c ∷ s) = false

-- `a == b`
unfoldable pub str_eq : Str → Str → Bool
str_eq [] [] = true
str_eq [] (y ∷ ys) = false
str_eq (x ∷ xs) [] = false
str_eq (x ∷ xs) (y ∷ ys) = (x == y) && str_eq xs ys

-- `a < b`, byte by byte.
unfoldable pub str_lt : Str → Str → Bool
str_lt [] [] = false
str_lt [] (y ∷ ys) = true
str_lt (x ∷ xs) [] = false
str_lt (x ∷ xs) (y ∷ ys) = if x == y then str_lt xs ys else ltb x y

pub str_eq→eq : (a b : Str) → str_eq a b ≡ true → a ≡ b
unfolding str_eq
str_eq→eq [] [] h = refl
str_eq→eq [] (y ∷ ys) h = cc
str_eq→eq (x ∷ xs) [] h = cc
str_eq→eq (x ∷ xs) (y ∷ ys) h = ground (arith, str_eq→eq xs ys)

pub str_eq_refl : (a : Str) → str_eq a a ≡ true
unfolding str_eq
str_eq_refl [] = refl
str_eq_refl (x ∷ xs) = ground (arith, str_eq_refl xs)

pub str_eq_iff : (a b : Str) → (str_eq a b ≡ true) ↔ (a ≡ b)
str_eq_iff a b = (str_eq→eq a b, λ e. rw e (str_eq_refl b))

pub str_lt_irrefl : (a : Str) → str_lt a a ≡ false
unfolding str_lt
str_lt_irrefl [] = refl
str_lt_irrefl (x ∷ xs) = ground (arith, str_lt_irrefl xs)

pub str_lt_trans : (a b c : Str) → str_lt a b ≡ true → str_lt b c ≡ true → str_lt a c ≡ true
unfolding str_lt
str_lt_trans [] [] c h k = cc
str_lt_trans [] (y ∷ b) [] h k = cc
str_lt_trans [] (y ∷ b) (z ∷ c) h k = refl
str_lt_trans (x ∷ a) [] c h k = cc
str_lt_trans (x ∷ a) (y ∷ b) [] h k = cc
str_lt_trans (x ∷ a) (y ∷ b) (z ∷ c) h k = ground (arith, str_lt_trans a b c)

-- The order is total: two strings that are not ordered either way are the same.
pub str_lt_total : (a b : Str) → str_lt a b ≡ false → str_lt b a ≡ false → a ≡ b
unfolding str_lt
str_lt_total [] [] h k = refl
str_lt_total [] (y ∷ b) h k = cc
str_lt_total (x ∷ a) [] h k = cc
str_lt_total (x ∷ a) (y ∷ b) h k = ground (arith, str_lt_total a b)

-- What is not less than a middle one is not less than what that one does not exceed.
pub str_lt_cotrans : (a b c : Str) → str_lt a b ≡ false → str_lt b c ≡ false → str_lt a c ≡ false
unfolding str_lt
str_lt_cotrans [] [] c h k = k
str_lt_cotrans [] (y ∷ b) c h k = cc
str_lt_cotrans (x ∷ a) [] [] h k = refl
str_lt_cotrans (x ∷ a) [] (z ∷ c) h k = cc
str_lt_cotrans (x ∷ a) (y ∷ b) [] h k = refl
str_lt_cotrans (x ∷ a) (y ∷ b) (z ∷ c) h k = ground (arith, str_lt_cotrans a b c)

pub str_lt_asym : (a b : Str) → str_lt a b ≡ true → str_lt b a ≡ false
unfolding str_lt
str_lt_asym [] [] h = cc
str_lt_asym [] (y ∷ b) h = refl
str_lt_asym (x ∷ a) [] h = cc
str_lt_asym (x ∷ a) (y ∷ b) h = ground (arith, str_lt_asym a b)

-- White space of one, two and three UTF-8 bytes, as `unicode.IsSpace` has it.
abbrev pub is_space : ℕ → Bool
is_space c = (leb 9 c && leb c 13) || c == 32

abbrev pub is_space₂ : ℕ → ℕ → Bool
is_space₂ a b = a == 0xc2 && (b == 0x85 || b == 0xa0)

abbrev pub is_space₃ : ℕ → ℕ → ℕ → Bool
is_space₃ a b c =
    (a == 0xe1 && b == 0x9a && c == 0x80)
    || (a == 0xe2
        && b == 0x80
        && ((leb 0x80 c && leb c 0x8a) || c == 0xa8 || c == 0xa9 || c == 0xaf))
    || (a == 0xe2 && b == 0x81 && c == 0x9f)
    || (a == 0xe3 && b == 0x80 && c == 0x80)

-- Drops the leading white space.
pub trim_left : Str → Str
trim_left [] = []
trim_left (a ∷ []) = if is_space a then [] else a ∷ []
trim_left (a ∷ b ∷ []) =
    let one = trim_left (b ∷ []) in
    if is_space a then one else if is_space₂ a b then [] else a ∷ b ∷ []
trim_left (a ∷ b ∷ c ∷ s) =
    let one = trim_left (b ∷ c ∷ s) in
    let two = trim_left (c ∷ s) in
    let three = trim_left s in
    if is_space a
    then one
    else if is_space₂ a b
    then two
    else if is_space₃ a b c
    then three
    else a ∷ b ∷ c ∷ s

-- Drops the trailing white space of a string that is given back to front.
pub trim_right_reversed : Str → Str
trim_right_reversed [] = []
trim_right_reversed (a ∷ []) = if is_space a then [] else a ∷ []
trim_right_reversed (b ∷ a ∷ []) =
    let one = trim_right_reversed (a ∷ []) in
    if is_space b then one else if is_space₂ a b then [] else b ∷ a ∷ []
trim_right_reversed (c ∷ b ∷ a ∷ s) =
    let one = trim_right_reversed (b ∷ a ∷ s) in
    let two = trim_right_reversed (a ∷ s) in
    let three = trim_right_reversed s in
    if is_space c
    then one
    else if is_space₂ b c
    then two
    else if is_space₃ a b c
    then three
    else c ∷ b ∷ a ∷ s

-- `strings.TrimSpace`
unfoldable pub trim_space : Str → Str
unfolding trim_left trim_right_reversed
trim_space s = reverse (trim_right_reversed (reverse (trim_left s)))

-- ===== src/Prelude/Decimal.antt =====
-- `%d` of a number that is not negative, and that it loses nothing.
use Prim.Native.Nat.{ℕ, zero, suc, ◌+◌, ◌-◌, ◌*◌, ◌/◌, ◌%◌, ◌<◌}
use mathlib.Core.Path.{◌≡◌, refl, sym, ap, ◌∙◌}
use mathlib.Core.List.{[], ◌∷◌, ◌++◌}
use native.Mathlib.Omega.{arith}
use deltaflow.Prelude.Tests.{ltb, if◌then◌else◌}
use deltaflow.Prelude.Text.{Str}

digits_of : ℕ → ℕ → Str
digits_of zero n = []
digits_of (suc f) n =
    let front = digits_of f (n / 10) in
    if ltb n 10 then (48 + n) ∷ [] else front ++ (48 + n % 10) ∷ []

unfoldable pub itoa : ℕ → Str
unfolding digits_of
itoa n = digits_of (suc n) n

value_from : ℕ → Str → ℕ
value_from acc [] = acc
value_from acc (c ∷ s) = value_from (acc * 10 + (c - 48)) s

value_from-append :
    (acc : ℕ) (s : Str) (c : ℕ) → value_from acc (s ++ c ∷ []) ≡ value_from acc s * 10 + (c - 48)
unfolding value_from
value_from-append acc [] c = refl
value_from-append acc (d ∷ s) c = value_from-append (acc * 10 + (d - 48)) s c

value_from-digits_of : (f n : ℕ) → n < f → value_from 0 (digits_of f n) ≡ n
unfolding digits_of value_from
value_from-digits_of zero n h = elim h [ ]
value_from-digits_of (suc f) n h = ground (
  arith,
  value_from-digits_of f (n / 10),
  value_from-append 0 (digits_of f (n / 10)) (48 + n % 10),
)

-- Different numbers print differently.
pub itoa-injective : (m n : ℕ) → itoa m ≡ itoa n → m ≡ n
unfolding itoa
itoa-injective m n e =
    sym (value_from-digits_of (suc m) m (omega arith))
    ∙ ap (value_from 0) e
    ∙ value_from-digits_of (suc n) n (omega arith)

pub append-cancel_left : (p s t : Str) → p ++ s ≡ p ++ t → s ≡ t
append-cancel_left [] s t e = e
append-cancel_left (c ∷ p) s t e = append-cancel_left p s t (ground arith)

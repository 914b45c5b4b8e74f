-- ===== src/Base/TextLaws.antt =====
-- Laws of the text operations: printed numbers read back, and plain text has nothing to strip.
use Prim.Native.Nat.{ℕ, zero, suc, ◌+◌, ◌/◌, ◌%◌, ◌<◌}
use mathlib.Core.Path.{◌≡◌, refl, ◌∙◌, ap}
use mathlib.Core.Logic.{◌≢◌, inl, inr}
use mathlib.Core.Bool.{Bool, true, false, ◌&&◌, ◌||◌}
use mathlib.Core.List.{List, [], ◌∷◌, ◌++◌}
use native.Mathlib.Omega.{arith}
use zano_shadow_sim.Base.Tests.{ltb, leb, Bool-cases}
use zano_shadow_sim.Base.Text.{
  lower, is_digit, strip_left, strip_right, strip, span_digits, all_digits, value_from, value,
  decimal_fuel, decimal,
}

value_from-decimal_fuel :
    (f n : ℕ) (rest : List ℕ) → n < f → value_from 0 (decimal_fuel f n rest) ≡ value_from n rest
unfolding value_from decimal_fuel
value_from-decimal_fuel zero n rest h = absurd (omega arith)
value_from-decimal_fuel (suc f) n rest h = elim (Bool-cases (ltb n 10)) [
  | inl small ↦ rw small (ap (λ t. value_from t rest) (omega arith))
  | inr big ↦ rw big (
      value_from-decimal_fuel f (n / 10) ((b'0' + n % 10) ∷ rest) (ground arith)
      ∙ ap (λ t. value_from t rest) (omega arith))
]

pub value-decimal : (n : ℕ) → value (decimal n) ≡ n
unfolding value decimal value_from
value-decimal n = value_from-decimal_fuel (suc n) n [] (omega arith)

all_digits-decimal_fuel :
    (f n : ℕ) (rest : List ℕ) → all_digits rest ≡ true → all_digits (decimal_fuel f n rest) ≡ true
unfolding all_digits decimal_fuel
all_digits-decimal_fuel zero n rest h = h
all_digits-decimal_fuel (suc f) n rest h =
    ground (arith, all_digits-decimal_fuel f (n / 10) ((b'0' + n % 10) ∷ rest))

pub all_digits-decimal : (n : ℕ) → all_digits (decimal n) ≡ true
unfolding decimal
all_digits-decimal n = all_digits-decimal_fuel (suc n) n [] (unfold all_digits in refl)

decimal_fuel-ne-nil : (f n : ℕ) (c : ℕ) (rest : List ℕ) → decimal_fuel f n (c ∷ rest) ≢ []
unfolding decimal_fuel
decimal_fuel-ne-nil zero n c rest h = cc
decimal_fuel-ne-nil (suc f) n c rest h =
    ground (arith, decimal_fuel-ne-nil f (n / 10) (b'0' + n % 10) (c ∷ rest))

pub decimal-ne-nil : (n : ℕ) → decimal n ≢ []
unfolding decimal decimal_fuel
decimal-ne-nil n h = ground (arith, decimal_fuel-ne-nil n (n / 10) (b'0' + n % 10) [])

-- A run of digits ends at the first character that is none.
pub span_digits-append :
    (ds : List ℕ) (u : ℕ) (rest : List ℕ)
    → all_digits ds ≡ true
    → is_digit u ≡ false
    → span_digits (ds ++ u ∷ rest) ≡ (ds, u ∷ rest)
unfolding span_digits all_digits
span_digits-append [] u rest h stop = ground arith
span_digits-append (d ∷ ds) u rest h stop = ground (arith, span_digits-append ds u rest)

-- Digits and lower-case letters.
unfoldable pub is_plain : ℕ → Bool
unfolding is_digit
is_plain c = is_digit c || (leb b'a' c && leb c b'z')

unfoldable pub all_plain : List ℕ → Bool
unfolding is_plain
all_plain [] = true
all_plain (c ∷ s) = is_plain c && all_plain s

pub all_plain-append : (s t : List ℕ) → all_plain (s ++ t) ≡ (all_plain s && all_plain t)
unfolding all_plain
all_plain-append [] t = refl
all_plain-append (c ∷ s) t = ground (arith, all_plain-append s t)

pub all_plain_of_digits : (s : List ℕ) → all_digits s ≡ true → all_plain s ≡ true
unfolding all_plain all_digits
all_plain_of_digits [] h = refl
all_plain_of_digits (c ∷ s) h = ground (arith, all_plain_of_digits s)

pub lower_plain : (s : List ℕ) → all_plain s ≡ true → lower s ≡ s
unfolding all_plain lower
lower_plain [] h = refl
lower_plain (c ∷ s) h = ground (arith, lower_plain s)

strip_right_plain : (s : List ℕ) → all_plain s ≡ true → strip_right s ≡ s
unfolding all_plain strip_right
strip_right_plain [] h = refl
strip_right_plain (c ∷ []) h = ground arith
strip_right_plain (c ∷ d ∷ s) h = rw (strip_right_plain (d ∷ s) (ground arith), strip_right) refl

strip_left_plain : (s : List ℕ) → all_plain s ≡ true → strip_left s ≡ s
unfolding all_plain strip_left
strip_left_plain [] h = refl
strip_left_plain (c ∷ s) h = ground arith

pub strip_plain : (s : List ℕ) → all_plain s ≡ true → strip s ≡ s
unfolding strip
strip_plain s h = rw (strip_right_plain s h) (strip_left_plain s h)

-- ===== src/Float/Ratio.antt =====
-- Exact fractions meet what the model assumes of floats.
use zano_shadow_sim.Base.{
  ℕ, ◌+◌, ◌*◌, ◌/◌, ◌-◌, ◌≡◌, refl, true, List, [], ◌∷◌, arith, ltb, leb, ◌==◌, if◌then◌else◌,
  all_digits, value_from, value,
}
use zano_shadow_sim.Float.{Float, IsExact}

-- Numerator and denominator.
abbrev pub Ratio : Type 0
Ratio = ℕ × ℕ

-- The digits after a point scale the number down.
parse_fraction : ℕ → ℕ → List ℕ → Ratio
parse_fraction acc scale [] = (acc, scale)
parse_fraction acc scale (c ∷ s) = parse_fraction (acc * 10 + (c - b'0')) (scale * 10) s

parse_from : ℕ → List ℕ → Ratio
unfolding parse_fraction
parse_from acc [] = (acc, 1)
parse_from acc (c ∷ s) =
    let rest = parse_from (acc * 10 + (c - b'0')) s in
    if c == b'.' then parse_fraction acc 1 s else rest

unfoldable pub ratios : Float
unfolding parse_from
ratios = record {
  F = Ratio;
  of_ℕ = λ n. (n, 1);
  parse = parse_from 0;
  add = λ (a, b) (c, d). (a * d + c * b, b * d);
  mul = λ (a, b) (c, d). (a * c, b * d);
  div = λ (a, b) (c, d). (a * d, b * c);
  floor_div = λ (a, b) (c, d). ((a * d) / (b * c), 1);
  to_int = λ (a, b). a / b;
  le = λ (a, b) (c, d). leb (a * d) (c * b);
  lt = λ (a, b) (c, d). ltb (a * d) (c * b);
}

parse_from-digits :
    (acc : ℕ) (s : List ℕ) → all_digits s ≡ true → parse_from acc s ≡ (value_from acc s, 1)
unfolding parse_from all_digits value_from
parse_from-digits acc [] h = refl
parse_from-digits acc (c ∷ s) h = ground (arith, parse_from-digits (acc * 10 + (c - b'0')) s)

pub ratios-IsExact : IsExact ratios
unfolding ratios
ratios-IsExact = record {
  to_int-of_ℕ = λ n _. omega arith;
  add-of_ℕ = λ a b _. ground arith;
  mul-of_ℕ = λ a b _. ground arith;
  parse_digits = λ s h _. unfold value in parse_from-digits 0 s h;
}

-- ===== src/Yaml/Numbers.antt =====
-- Which texts Python's `float` reads, for `format_yaml_value` of scripts/config_generation/yaml_emit.py.
use zano_shadow_sim.Base.{
  ℕ, Bool, true, false, ◌&&◌, ◌||◌, Option, none, some, List, [], ◌∷◌, ◌==◌, if◌then◌else◌,
  is_empty, codes, lower, strip, is_digit, text_eq,
}

starts_with_digit : List ℕ → Bool
unfolding is_digit
starts_with_digit [] = false
starts_with_digit (c ∷ s) = is_digit c

-- What follows the digits at the front, between which single underscores may stand.
unfoldable after_digits : List ℕ → List ℕ
unfolding is_digit starts_with_digit
after_digits [] = []
after_digits (c ∷ s) =
    let rest = after_digits s in
    if is_digit c then rest else if c == b'_' && starts_with_digit s then rest else c ∷ s

-- The text after at least one digit.
unfoldable digit_part : List ℕ → Option (List ℕ)
unfolding starts_with_digit after_digits
digit_part s = if starts_with_digit s then some (after_digits s) else none

unfoldable drop_sign : List ℕ → List ℕ
drop_sign [] = []
drop_sign (c ∷ s) = if c == b'+' || c == b'-' then s else c ∷ s

-- Nothing, or an exponent up to the end.
unfoldable ends_with_exponent : List ℕ → Bool
unfolding digit_part drop_sign
ends_with_exponent [] = true
ends_with_exponent (c ∷ s) =
    let ends : Bool = elim (digit_part (drop_sign s)) [ none ↦ false | some r ↦ is_empty r ] in
    c == b'e' && ends

unfoldable after_point : List ℕ → Bool
unfolding digit_part ends_with_exponent
after_point s = elim (digit_part s) [ none ↦ ends_with_exponent s | some r ↦ ends_with_exponent r ]

unfoldable after_whole : List ℕ → Bool
unfolding after_point ends_with_exponent
after_whole [] = true
after_whole (c ∷ s) = if c == b'.' then after_point s else ends_with_exponent (c ∷ s)

-- A number that has no digits before its point.
unfoldable point_first : List ℕ → Bool
unfolding starts_with_digit after_point
point_first [] = false
point_first (c ∷ s) = c == b'.' && (starts_with_digit s && after_point s)

unfoldable pub is_float : List ℕ → Bool
unfolding digit_part after_whole point_first drop_sign strip lower text_eq
is_float value =
    let s = drop_sign (lower (strip value)) in
    let number : Bool = elim (digit_part s) [ none ↦ point_first s | some r ↦ after_whole r ] in
    text_eq s (codes "inf") || text_eq s (codes "infinity") || text_eq s (codes "nan") || number

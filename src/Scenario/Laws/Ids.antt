-- ===== src/Scenario/Laws/Ids.antt =====
-- The ids of a group: their range as a pattern, and their numbers.

use mathlib.Core.List.{append_assoc, append-nil}
use zano_shadow_sim.Base.{
  ℕ, zero, suc, ◌-◌, ◌≡◌, refl, max, not, Bool, true, false, ◌&&◌, Option, some, List, [], ◌∷◌,
  ◌++◌, ◌==◌, is_empty, if◌then◌else◌, length, length-append, arith, ap, ◌∙◌, text_eq, all_digits,
  is_digit, span_digits-append, value, value_from, decimal, value-decimal, all_digits-decimal,
}
use zano_shadow_sim.Scenario.{
  replicate, id_format, width_of, range_end, range_in_braces, match_after, id_range,
  parse_range_pattern,
}

-- A text without an opening brace or a line break.
unfoldable pub is_plain_prefix : List ℕ → Bool
is_plain_prefix [] = true
is_plain_prefix (c ∷ s) = not (c == b'{') && (not (c == 10) && is_plain_prefix s)

is_empty-snoc : (seen : List ℕ) (c : ℕ) (p : List ℕ) → is_empty ((seen ++ c ∷ []) ++ p) ≡ false
is_empty-snoc [] c p = refl
is_empty-snoc (x ∷ seen) c p = refl

match_after-plain :
    (matches : List ℕ → Option (List ℕ × List ℕ)) (p s : List ℕ) (r : List ℕ × List ℕ)
    (seen : List ℕ)
    → matches s ≡ some r
    → is_plain_prefix p ≡ true
    → is_empty (seen ++ p) ≡ false
    → match_after matches seen (p ++ b'{' ∷ s) ≡ some (seen ++ p, r.0, r.1)
unfolding match_after is_plain_prefix
match_after-plain matches [] s r seen m plain e = ground (arith, m, append-nil seen, e)
match_after-plain matches (c ∷ p) s r seen m plain e = ground (
  arith,
  append_assoc seen (c ∷ []) p,
  is_empty-snoc seen c p,
  match_after-plain matches p s r (seen ++ c ∷ []) m,
)

-- What stands between the braces.
abbrev pub in_braces : List ℕ → List ℕ → List ℕ
in_braces ds de = ds ++ (b'.' ∷ b'.' ∷ (de ++ (b'}' ∷ [])))

range_in_braces-digits :
    (ds de : List ℕ)
    → all_digits ds ≡ true
    → all_digits de ≡ true
    → is_empty ds ≡ false
    → is_empty de ≡ false
    → range_in_braces (in_braces ds de) ≡ some (ds, de)
unfolding range_in_braces range_end text_eq is_digit
range_in_braces-digits ds de a b e f = ground (
  arith,
  span_digits-append ds b'.' (b'.' ∷ (de ++ (b'}' ∷ []))) a,
  span_digits-append de b'}' [] b,
)

pub all_digits-id_format : (width i : ℕ) → all_digits (id_format width i) ≡ true
unfolding id_format all_digits is_digit
all_digits-id_format width i = padded (width - length (decimal i))
  where
    padded : (n : ℕ) → all_digits (replicate n b'0' ++ decimal i) ≡ true
    padded zero = all_digits-decimal i
    padded (suc n) = padded n

width_of-digits :
    (d : ℕ) (ds : List ℕ)
    → width_of (d ∷ ds) ≡ (if d == b'0' && not (is_empty ds) then length (d ∷ ds) else 0)
unfolding width_of
width_of-digits d [] = ground arith
width_of-digits d (c ∷ ds) = ground arith

value_from-replicate : (n : ℕ) (s : List ℕ) → value_from 0 (replicate n b'0' ++ s) ≡ value_from 0 s
unfolding value_from
value_from-replicate zero s = refl
value_from-replicate (suc n) s = value_from-replicate n s

length-replicate : (n c : ℕ) → length (replicate n c) ≡ n
length-replicate zero c = refl
length-replicate (suc n) c = ap suc (length-replicate n c)

-- The number in a generated id is read back as the agent's index, and has the width of the
-- format or, where that is more, as many characters as the index has digits.
pub value-id_format :
    (width i : ℕ)
    → (value (id_format width i) ≡ i)
      × (length (id_format width i) ≡ max width (length (decimal i)))
unfolding value id_format
value-id_format width i = (
  value_from-replicate (width - length (decimal i)) (decimal i) ∙ value-decimal i,
  omega (
    arith,
    length-append (replicate (width - length (decimal i)) b'0') (decimal i),
    length-replicate (width - length (decimal i)) b'0',
  ),
)

-- A prefix that is not empty and has neither an opening brace nor a line break, followed by two
-- numbers in braces, is parsed as that prefix and the values of both numbers; the width is the
-- length of the first number where that has several digits, the first of them 0, and 0
-- otherwise.
pub parse_range_pattern_lem :
    (id_prefix : List ℕ) (d : ℕ) (ds de : List ℕ)
    → is_plain_prefix id_prefix ≡ true
    → is_empty id_prefix ≡ false
    → all_digits (d ∷ ds) ≡ true
    → all_digits de ≡ true
    → is_empty de ≡ false
    → parse_range_pattern (id_prefix ++ b'{' ∷ in_braces (d ∷ ds) de)
      ≡ some (record {
        id_prefix = id_prefix;
        width = if d == b'0' && not (is_empty ds) then length (d ∷ ds) else 0;
        start_index = value (d ∷ ds);
        end_index = value de;
      })
unfolding parse_range_pattern id_range
parse_range_pattern_lem id_prefix d ds de p e a b g =
    let found =
      match_after-plain range_in_braces id_prefix (in_braces (d ∷ ds) de) (d ∷ ds, de) []
        (range_in_braces-digits (d ∷ ds) de a b refl g) p e in
    rw (found, parse_range_pattern, width_of-digits d ds) refl

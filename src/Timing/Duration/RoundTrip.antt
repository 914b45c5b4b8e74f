-- ===== src/Timing/Duration/RoundTrip.antt =====
-- `parse_duration` on what `format_time_offset` prints, and the scan.
use zano_shadow_sim.Base.{
  ℕ, zero, suc, ◌+◌, ◌*◌, ◌/◌, ◌^◌, ◌≤◌, ◌<◌, ◌≡◌, refl, ◌∙◌, ap, true, false, none, some, List, [],
  ◌∷◌, ◌++◌, ok, lower, strip, span_digits, all_digits, is_empty, decimal, length, arith,
  length-append, lower_plain, strip_plain, span_digits-append, all_plain_of_digits,
  all_plain-append, all_digits-decimal, decimal-ne-nil, value-decimal, is_digit, is_plain,
  all_plain, inl, inr, Option-cases,
}
use native.Mathlib.Nat.{le_trans}
use zano_shadow_sim.Float.{Float, IsExact}
use zano_shadow_sim.Timing.Duration.{
  Token, unit_seconds, with_unit, with_fraction, token, scan, total_seconds, parse_duration,
  with_suffix, format_time_offset,
}

-- A token takes at least two characters.
with_unit-length :
    (ds s : List ℕ) (t : Token) → with_unit ds s ≡ some t → suc (length t.after) ≤ length s
unfolding with_unit
with_unit-length ds [] t h = cc
with_unit-length ds (u ∷ after) t h = ground arith

span_digits-length : (s : List ℕ) → length (span_digits s).1 ≤ length s
unfolding span_digits
span_digits-length [] = omega arith
span_digits-length (c ∷ s) = ground (arith, span_digits-length s)

span_digits-length_lt :
    (s : List ℕ) → is_empty (span_digits s).0 ≡ false → length (span_digits s).1 < length s
unfolding span_digits
span_digits-length_lt [] h = cc
span_digits-length_lt (c ∷ s) h = ground (arith, span_digits-length s)

with_fraction-length :
    (ds s : List ℕ) (t : Token) → with_fraction ds s ≡ some t → suc (length t.after) ≤ length s
unfolding with_fraction
with_fraction-length ds [] t h = cc
with_fraction-length ds (c ∷ s) t h = ground (
  arith,
  span_digits-length s,
  with_unit-length ds (c ∷ s) t,
  with_unit-length (ds ++ b'.' ∷ (span_digits s).0) (span_digits s).1 t,
)

token-length : (s : List ℕ) (t : Token) → token s ≡ some t → length t.after < length s
unfolding token
token-length s t h =
    ground
      (arith, span_digits-length_lt s, with_fraction-length (span_digits s).0 (span_digits s).1 t)

module _ (D : Float) where
  open D use {F, of_ℕ, parse, add, mul, to_int}

  -- With at least the text's length as fuel the scan ends only where no token begins.
  pub scan_complete :
      (fuel : ℕ) (total : F) (s : List ℕ) → length s ≤ fuel → token (scan D fuel total s).1 ≡ none
  unfolding scan
  scan_complete zero total [] h = unfold token span_digits in refl
  scan_complete zero total (c ∷ s) h = absurd (omega arith)
  scan_complete (suc fuel) total s h = elim (Option-cases (token s)) [
    | inl e ↦ rw (e, scan) e
    | inr (t, e) ↦
        rw (e, scan)
          (scan_complete fuel (add total (mul (parse t.number) (of_ℕ t.seconds))) t.after
            (omega (arith, token-length s t e)))
  ]

unit_no_digit : (u k : ℕ) → unit_seconds u ≡ some k → is_digit u ≡ false
unfolding unit_seconds is_digit
unit_no_digit u k h = ground arith

unit_plain : (u k : ℕ) → unit_seconds u ≡ some k → is_plain u ≡ true
unfolding unit_seconds is_plain
unit_plain u k h = ground arith

unit_pos : (u k : ℕ) → unit_seconds u ≡ some k → 0 < k
unfolding unit_seconds
unit_pos u k h = ground arith

not_digits : (ds : List ℕ) (u : ℕ) → is_digit u ≡ false → all_digits (ds ++ u ∷ []) ≡ false
unfolding all_digits
not_digits [] u h = ground arith
not_digits (d ∷ ds) u h = ground (arith, not_digits ds u)

token-with_suffix :
    (n u k : ℕ)
    → unit_seconds u ≡ some k
    → token (with_suffix n u) ≡ some (record { number = decimal n; seconds = k; after = [] })
unfolding token with_suffix with_fraction with_unit unit_seconds
token-with_suffix n u k h =
    rw (span_digits-append (decimal n) u [] (all_digits-decimal n) (unit_no_digit u k h))
      (ground (arith, decimal-ne-nil n))

with_suffix-plain :
    (n u k : ℕ) → unit_seconds u ≡ some k → lower (strip (with_suffix n u)) ≡ with_suffix n u
unfolding with_suffix
with_suffix-plain n u k h =
    let plain : all_plain (decimal n ++ u ∷ []) ≡ true = rw all_plain-append (
      rw (all_plain_of_digits (decimal n) (all_digits-decimal n))
        (unfold all_plain in rw (unit_plain u k h))) in
    rw (strip_plain _ plain) (lower_plain _ plain)

with_suffix-not_digits :
    (n u k : ℕ) → unit_seconds u ≡ some k → all_digits (with_suffix n u) ≡ false
unfolding with_suffix
with_suffix-not_digits n u k h = not_digits (decimal n) u (unit_no_digit u k h)

length-with_suffix : (n u : ℕ) → length (with_suffix n u) ≡ suc (length (decimal n))
unfolding with_suffix
length-with_suffix n u = omega (arith, length-append (decimal n) (u ∷ []))

with_suffix-ne-nil : (n u : ℕ) → is_empty (with_suffix n u) ≡ false
with_suffix-ne-nil n u = ground (arith, length-with_suffix n u)

module _ (D : Float) where
  open D use {F, of_ℕ, parse, add, mul}

  scan-nil : (fuel : ℕ) (total : F) → scan D fuel total [] ≡ (total, [])
  unfolding scan token span_digits
  scan-nil zero total = refl
  scan-nil (suc fuel) total = refl

  scan-with_suffix :
      (n u k : ℕ) (total : F)
      → unit_seconds u ≡ some k
      → scan D (length (with_suffix n u)) total (with_suffix n u)
        ≡ (add total (mul (parse (decimal n)) (of_ℕ k)), [])
  unfolding scan
  scan-with_suffix n u k total h =
      rw (length-with_suffix n u, scan, token-with_suffix n u k h) (scan-nil _ _)

le_of_mul : (n k : ℕ) → 0 < k → n ≤ n * k
le_of_mul n k h = grind arith

module _ (D : Float) (E : IsExact D) where
  open D use {F, of_ℕ, parse, add, mul, to_int}

  exact_total :
      (n k : ℕ)
      → 0 < k
      → n * k ≤ 2 ^ 53
      → to_int (add (of_ℕ 0) (mul (parse (decimal n)) (of_ℕ k))) ≡ n * k
  exact_total n k pos fits =
      let small : n ≤ 2 ^ 53 = le_trans (le_of_mul n k pos) fits in
      let read : parse (decimal n) ≡ of_ℕ n =
        rw value-decimal at
          (E.parse_digits (decimal n) (all_digits-decimal n) (rw value-decimal small)) in
      rw (read, E.mul-of_ℕ n k fits, E.add-of_ℕ 0 (n * k) (omega arith))
        (E.to_int-of_ℕ (0 + n * k) (omega arith) ∙ omega arith)

  parse_duration-with_suffix :
      (n u k : ℕ)
      → unit_seconds u ≡ some k
      → n * k ≤ 2 ^ 53
      → parse_duration D (with_suffix n u) ≡ ok (n * k)
  unfolding parse_duration total_seconds
  parse_duration-with_suffix n u k h fits =
      rw
        (
          with_suffix-plain n u k h,
          with_suffix-ne-nil n u,
          with_suffix-not_digits n u k h,
          scan-with_suffix D n u k (of_ℕ 0) h,
        )
        (ap ok (exact_total n k (unit_pos u k h) fits))

  -- Where floats are exact on whole numbers up to 2 ^ 53, `parse_duration` reads a time of at
  -- most 2 ^ 53 seconds, printed by `format_time_offset` for a configuration, back as the same
  -- number.
  pub parse_duration-format_time_offset :
      (seconds : ℕ)
      → seconds ≤ 2 ^ 53
      → parse_duration D (format_time_offset seconds true) ≡ ok seconds
  unfolding format_time_offset unit_seconds
  parse_duration-format_time_offset seconds h = ground (
    arith,
    parse_duration-with_suffix (seconds / 3600) b'h' 3600 refl,
    parse_duration-with_suffix (seconds / 60) b'm' 60 refl,
    parse_duration-with_suffix seconds b's' 1 refl,
  )

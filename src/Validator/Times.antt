-- ===== src/Validator/Times.antt =====
-- `parse_time_to_seconds` and `seconds_to_human` of scripts/ai_config/validator.py.
use zano_shadow_sim.Base.{
  ℕ, ◌/◌, ◌%◌, ◌||◌, List, [], ◌∷◌, ◌++◌, ltb, if◌then◌else◌, Result, ok, err, lower, strip,
  all_digits, value, length, is_empty,
}
use zano_shadow_sim.Float.{Float}
use zano_shadow_sim.Timing.Duration.{scan, with_suffix, join_spaces}

-- A time as YAML gives it: an int, a float or a text.
pub data Time (D : Float) : Type 0 where
  int : ℕ → Time D
  float : D.F → Time D
  text : List ℕ → Time D

module _ (D : Float) where
  open D use {F, of_ℕ, to_int}

  total_or_error : F × List ℕ → Result ℕ
  total_or_error (total, []) = ok (to_int total)
  total_or_error (total, c ∷ rest) = err "Invalid time value"

  -- The expression and the loop over its matches are those of `parse_duration`.
  unfoldable pub parse_time_to_seconds : Time D → Result ℕ
  unfolding total_or_error strip lower all_digits value
  parse_time_to_seconds (Time.int n) = ok n
  parse_time_to_seconds (Time.float x) = ok (to_int x)
  parse_time_to_seconds (Time.text original) =
      let time_str = lower (strip original) in
      if is_empty time_str
      then err "Empty time value"
      else if all_digits time_str
      then ok (value time_str)
      else total_or_error (scan D (length time_str) (of_ℕ 0) time_str)

unfoldable pub seconds_to_human : ℕ → List ℕ
unfolding with_suffix join_spaces
seconds_to_human seconds =
    let hours = seconds / 3600 in
    let minutes = (seconds % 3600) / 60 in
    let secs = seconds % 60 in
    let parts =
      (if ltb 0 hours then with_suffix hours b'h' ∷ [] else [])
      ++ (if ltb 0 minutes then with_suffix minutes b'm' ∷ [] else []) in
    join_spaces (parts ++ (if ltb 0 secs || is_empty parts then with_suffix secs b's' ∷ [] else []))

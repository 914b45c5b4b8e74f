-- ===== src/Timing/Duration.antt =====
-- `parse_duration` and `format_time_offset` of scripts/config_generation/timeline.py.
pub mod RoundTrip
use zano_shadow_sim.Base.{
  ℕ, zero, suc, ◌+◌, ◌*◌, ◌/◌, ◌%◌, Bool, true, false, ◌&&◌, ◌||◌, Option, none, some, List, [],
  ◌∷◌, ◌++◌, ltb, leb, ◌==◌, if◌then◌else◌, Result, ok, err, codes, lower, strip, span_digits,
  all_digits, value, decimal, length, is_empty, String,
}
use zano_shadow_sim.Float.{Float}

-- `{'h': 3600, 'm': 60, 's': 1}[unit]`
unit_seconds : ℕ → Option ℕ
unit_seconds u =
    if u == b'h'
    then some 3600
    else if u == b'm'
    then some 60
    else if u == b's'
    then some 1
    else none

-- A token that `_DURATION_TOKEN_RE` matches: the number's text, the seconds of its unit, and the
-- text after it.
pub record Token : Type 0 where
  pub number : List ℕ
  pub seconds : ℕ
  pub after : List ℕ

-- A unit letter must come next.
with_unit : List ℕ → List ℕ → Option Token
unfolding unit_seconds
with_unit number [] = none
with_unit number (u ∷ after) = elim (unit_seconds u) [
  | none ↦ none
  | some n ↦ some (record { number = number; seconds = n; after = after })
]

-- `(?:\.\d+)?` after the digits `ds`
with_fraction : List ℕ → List ℕ → Option Token
unfolding with_unit
with_fraction ds [] = none
with_fraction ds (c ∷ after) =
    let (fs, rest) = span_digits after in
    if c == b'.'
    then (if is_empty fs then none else with_unit (ds ++ b'.' ∷ fs) rest)
    else with_unit ds (c ∷ after)

-- The match of the expression at the front of a text, if there is one.
pub token : List ℕ → Option Token
unfolding with_fraction
token s = let (ds, rest) = span_digits s in if is_empty ds then none else with_fraction ds rest

module _ (D : Float) where
  open D use {F, of_ℕ, parse, add, mul, to_int}

  -- The loop over `finditer`, which goes on while a match begins where the last one ended: the total
  -- and the text that is left at `pos`. A token is not empty, so the text's length is fuel enough.
  unfoldable pub scan : ℕ → F → List ℕ → F × List ℕ
  unfolding token
  scan zero total s = (total, s)
  scan (suc fuel) total s = elim (token s) [
    | none ↦ (total, s)
    | some t ↦ scan fuel (add total (mul (parse t.number) (of_ℕ t.seconds))) t.after
  ]

  -- The total, if the scan reached the end of the text.
  pub total_seconds : F × List ℕ → Result ℕ
  total_seconds (total, []) = ok (to_int total)
  total_seconds (total, c ∷ rest) = err "Invalid duration value"

  unfoldable pub parse_duration : List ℕ → Result ℕ
  unfolding scan total_seconds strip lower all_digits value
  parse_duration original =
      let duration_str = lower (strip original) in
      if is_empty duration_str
      then err "Empty duration value"
      else if all_digits duration_str
      then ok (value duration_str)
      else total_seconds (scan (length duration_str) (of_ℕ 0) duration_str)

-- A single part of a printed time, such as "4h".
unfoldable pub with_suffix : ℕ → ℕ → List ℕ
with_suffix n u = decimal n ++ u ∷ []

-- `" ".join(parts)`
unfoldable pub join_spaces : List (List ℕ) → List ℕ
join_spaces [] = []
join_spaces (p ∷ []) = p
join_spaces (p ∷ q ∷ parts) = p ++ 32 ∷ join_spaces (q ∷ parts)

unfoldable pub format_time_offset : ℕ → Bool → List ℕ
unfolding with_suffix join_spaces
format_time_offset seconds true =
    if seconds % 3600 == 0 && leb 3600 seconds
    then with_suffix (seconds / 3600) b'h'
    else if seconds % 60 == 0 && leb 60 seconds
    then with_suffix (seconds / 60) b'm'
    else with_suffix seconds b's'
format_time_offset seconds false =
    let hours = seconds / 3600 in
    let minutes = (seconds % 3600) / 60 in
    let secs = seconds % 60 in
    let parts =
      (if ltb 0 hours then with_suffix hours b'h' ∷ [] else [])
      ++ (if ltb 0 minutes then with_suffix minutes b'm' ∷ [] else [])
      ++ (if ltb 0 secs && hours == 0 then with_suffix secs b's' ∷ [] else []) in
    if is_empty parts then codes "0s" else join_spaces parts

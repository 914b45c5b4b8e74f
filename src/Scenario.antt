-- ===== src/Scenario.antt =====
-- scripts/scenario_parser.py: agent ids with ranges, and the start times of a group of agents.
pub mod Laws
pub mod Staggers
pub mod Fields
pub mod Expand
pub mod Defaults
pub mod Auto
pub mod Resolve
use mathlib.Core.Option
use zano_shadow_sim.Base.{
  ℕ, zero, suc, ◌+◌, ◌*◌, ◌-◌, min, Bool, true, false, not, ◌&&◌, ◌||◌, Option, none, some, List,
  [], ◌∷◌, ◌++◌, map, String, ltb, leb, ◌==◌, if◌then◌else◌, is_empty, length, range_from, codes,
  text_eq, span_digits, value, decimal, Result, ok, err,
}
use zano_shadow_sim.Float.{Float}
use zano_shadow_sim.Timing.Duration.{parse_duration}

-- `parse_range_pattern`'s result: prefix, width (0 where the format is "{}"), start and end.
pub record IdRange : Type 0 where
  pub id_prefix : List ℕ
  pub width : ℕ
  pub start_index : ℕ
  pub end_index : ℕ

-- `range(count)` times the same value.
abbrev pub replicate : ℕ → ℕ → List ℕ
replicate zero c = []
replicate (suc n) c = c ∷ replicate n c

-- `format_str.format(i)`: at least `width` digits
unfoldable pub id_format : ℕ → ℕ → List ℕ
id_format width i = replicate (width - length (decimal i)) b'0' ++ decimal i

-- `AgentGroup.agent_ids`
unfoldable pub agent_ids : IdRange → List (List ℕ)
agent_ids r =
    map (λ i. r.id_prefix ++ id_format r.width i)
      (range_from r.start_index (r.end_index + 1 - r.start_index))

-- The format of the number `start_str`.
unfoldable pub width_of : List ℕ → ℕ
width_of [] = 0
width_of (c ∷ digits) = if c == b'0' && ltb 0 (length digits) then suc (length digits) else 0

-- `\{(\d+)\.\.(\d+)\}$` after the brace: the two numbers' texts
unfoldable pub range_end : List ℕ → List ℕ → Option (List ℕ × List ℕ)
range_end start_str (p ∷ q ∷ s) =
    let (end_str, rest) = span_digits s in
    if p == b'.' && (q == b'.' && (not (is_empty end_str) && text_eq rest (b'}' ∷ [])))
    then some (start_str, end_str)
    else none
range_end start_str _ = none

unfoldable pub range_in_braces : List ℕ → Option (List ℕ × List ℕ)
unfolding range_end
range_in_braces s =
    let (start_str, rest) = span_digits s in
    if is_empty start_str then none else range_end start_str rest

-- `\{(\d+)\}$` after the brace: the number's text, twice
unfoldable pub number_in_braces : List ℕ → Option (List ℕ × List ℕ)
number_in_braces s =
    let (digits, rest) = span_digits s in
    if not (is_empty digits) && text_eq rest (b'}' ∷ []) then some (digits, digits) else none

-- `re.match` of `^(.+?)` and what follows it: the shortest prefix that is not empty, after which a
-- brace and the rest match. `seen` is the prefix so far.
unfoldable pub match_after :
    (List ℕ → Option (List ℕ × List ℕ)) → List ℕ → List ℕ → Option (List ℕ × List ℕ × List ℕ)
match_after matches seen [] = none
match_after matches seen (c ∷ s) =
    let later = match_after matches (seen ++ c ∷ []) s in
    let here = if c == b'{' && not (is_empty seen) then matches s else none in
    elim here [
      | some (start_str, end_str) ↦ some (seen, start_str, end_str)
      | none ↦ if c == 10 then none else later
    ]

unfoldable pub id_range : List ℕ × List ℕ × List ℕ → IdRange
unfolding width_of
id_range (id_prefix, start_str, end_str) = record {
  id_prefix = id_prefix;
  width = width_of start_str;
  start_index = value start_str;
  end_index = value end_str;
}

unfoldable pub parse_range_pattern : List ℕ → Option IdRange
unfolding match_after range_in_braces number_in_braces id_range
parse_range_pattern pattern = elim (match_after range_in_braces [] pattern) [
  | some m ↦ some (id_range m)
  | none ↦ Option.map id_range (match_after number_in_braces [] pattern)
]

module _ (D : Float) where
  open D use {F, of_ℕ, mul, add, to_int}

  -- `int(current_batch_size * growth_factor)`
  unfoldable pub grown : F → ℕ → ℕ
  grown growth_factor current = to_int (mul (of_ℕ current) growth_factor)

  -- The start times of one batch from its `i`-th agent on.
  unfoldable pub batch_times : ℕ → ℕ → ℕ → ℕ → List ℕ
  batch_times batch_start_time intra_stagger i zero = []
  batch_times batch_start_time intra_stagger i (suc left) =
      (batch_start_time + i * intra_stagger)
      ∷ batch_times batch_start_time intra_stagger (i + 1) left

  -- The `while` loop on fuel, for the agents that remain: `none` where it runs out.
  unfoldable pub batched_loop : ℕ → ℕ → F → ℕ → ℕ → ℕ → ℕ → ℕ → ℕ → Option (List ℕ)
  batched_loop initial_delay interval growth max_size stagger zero remaining batch_num current =
      none
  batched_loop initial_delay interval growth max_size stagger (suc fuel) remaining batch_num
        current =
      let batch_size = min (min current max_size) remaining in
      let rest =
        batched_loop initial_delay interval growth max_size stagger fuel (remaining - batch_size)
          (batch_num + 1) (grown growth current) in
      let times = batch_times (initial_delay + batch_num * interval) stagger 0 batch_size in
      if ltb 0 remaining then Option.map (λ later. times ++ later) rest else some []

  -- Where every round places an agent, one round more than there are agents is enough.
  unfoldable pub calculate_batched_schedule : ℕ → ℕ → ℕ → ℕ → F → ℕ → ℕ → Option (List ℕ)
  calculate_batched_schedule count initial_delay interval initial_size growth max_size stagger =
      batched_loop initial_delay interval growth max_size stagger (count + 1) count 0 initial_size

-- How the values of a group differ; a list is given as it is, and random values by their bounds.
pub data Stagger (F : Type 0) : Type 0 where
  same_value : Stagger F
  listed : List ℕ → Stagger F
  random : ℕ → ℕ → Stagger F
  linear : ℕ → Stagger F
  batched : (initial_delay interval initial_size : ℕ) → F → (max_size intra_stagger : ℕ) → Stagger F

-- `expand_stagger` on a base value in seconds; `randint min max i` is the `i`-th number drawn.
unfoldable pub expand_stagger :
    (D : Float) → (ℕ → ℕ → ℕ → ℕ) → ℕ → Stagger D.F → ℕ → ℕ → Option (List ℕ)
expand_stagger D randint base same_value count offset = some (replicate count base)
expand_stagger D randint base (listed values) count offset = some values
expand_stagger D randint base (random low high) count offset =
    some (map (randint low high) (range_from 0 count))
expand_stagger D randint base (linear interval) count offset =
    some (map (λ i. base + (offset + i) * interval) (range_from 0 count))
expand_stagger D randint base
      (batched initial_delay interval initial_size growth max_size intra_stagger) count offset =
    Option.map (map (λ t. base + t)) (
      calculate_batched_schedule D count initial_delay interval initial_size growth max_size
        intra_stagger)

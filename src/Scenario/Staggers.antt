-- ===== src/Scenario/Staggers.antt =====
-- `parse_stagger_value` and `expand_stagger` of scripts/scenario_parser.py, on the values of a scenario.
-- The numbers of a scenario are whole, except for a growth factor.

use zano_shadow_sim.Base.{
  ℕ, zero, suc, Bool, false, ◌||◌, Option, none, some, List, [], ◌∷◌, map, String, str_eq, leb,
  ◌==◌, if◌then◌else◌, length, codes, decimal, value, text_of, Result, ok, err, ◌>>=◌,
}
use zano_shadow_sim.Float.{Float}
use zano_shadow_sim.Timing.{
  default_auto_threshold, default_initial_delay_s, default_batch_interval_s,
  default_initial_batch_size, default_max_batch_size, default_intra_batch_stagger_s,
}
use zano_shadow_sim.Timing.Duration.{parse_duration}
use zano_shadow_sim.Shared.Json.{Json, Jsons, Members, get, to_list}
use zano_shadow_sim.Scenario.{Stagger, linear, batched, random, expand_stagger}

-- An int as a value.
unfoldable pub number_of : ℕ → Json
unfolding text_of
number_of n = Json.number (text_of (decimal n))

-- The type of a stagger with its configuration.
pub data Spread (F : Type 0) : Type 0 where
  same : Spread F
  each : List Json → Spread F
  computed : Stagger F → Spread F

-- `d.get(key, default)`, for a number
unfoldable pub number_or : ℕ → Option Json → Result ℕ
number_or default none = ok default
number_or default (some (Json.number n)) = ok (value (codes n))
number_or default (some _) = err "TypeError"

-- The two bounds of a range.
unfoldable pub bounds : Option Json → Result (ℕ × ℕ)
bounds (some (Json.array (Jsons.cons (Json.number a) (Jsons.cons (Json.number b) vs)))) =
    ok (value (codes a), value (codes b))
bounds _ = err "TypeError"

unfoldable pub replicate_value : ℕ → Json → List Json
replicate_value zero v = []
replicate_value (suc n) v = v ∷ replicate_value n v

-- `any(s.endswith(u) for u in ['s', 'm', 'h'])`
unfoldable pub ends_with_unit : List ℕ → Bool
ends_with_unit [] = false
ends_with_unit (c ∷ []) = c == b's' || c == b'm' || c == b'h'
ends_with_unit (c ∷ d ∷ s) = ends_with_unit (d ∷ s)

module _ (D : Float) where
  open D use {F, parse}

  -- `DEFAULT_GROWTH_FACTOR`
  unfoldable pub default_growth_factor : F
  default_growth_factor = parse (codes "2.0")

  abbrev pub default_batches : Stagger F
  default_batches =
      batched default_initial_delay_s default_batch_interval_s default_initial_batch_size
        default_growth_factor default_max_batch_size default_intra_batch_stagger_s

  unfoldable pub factor_or : Option Json → Result F
  factor_or none = ok default_growth_factor
  factor_or (some (Json.number n)) = ok (parse (codes n))
  factor_or (some _) = err "TypeError"

  -- What `expand_stagger` takes from a dict with batches.
  unfoldable pub batches_of : Members → Result (Stagger F)
  unfolding number_or factor_or get
  batches_of ms = do
    initial_delay ← number_or default_initial_delay_s (get "initial_delay" ms)
    interval ← number_or default_batch_interval_s (get "batch_interval" ms)
    initial_size ← number_or default_initial_batch_size (get "initial_batch" ms)
    growth ← factor_or (get "growth_factor" ms)
    max_size ← number_or default_max_batch_size (get "max_batch" ms)
    intra_stagger ← number_or default_intra_batch_stagger_s (get "intra_stagger" ms)
    ok (batched initial_delay interval initial_size growth max_size intra_stagger)

  unfoldable pub spread_of_dict : Members → Result (Spread F)
  unfolding bounds batches_of get
  spread_of_dict ms = elim (get "range" ms) [
    | some range ↦ do b ← bounds (some range); ok (computed (random b.0 b.1))
    | none ↦ elim (get "batch_sizes" ms) [
      | some _ ↦ do stagger ← batches_of ms; ok (computed stagger)
      | none ↦ ok same
    ]
  ]

  unfoldable pub spread_of_text : String → ℕ → Result (Spread F)
  spread_of_text s count =
      let parsed = do interval ← parse_duration D (codes s); ok (computed (linear interval))
      in if str_eq s "auto"
        then ok (
            computed (
              if leb default_auto_threshold count
              then default_batches
              else linear default_intra_batch_stagger_s))
        else if str_eq s "batched"
        then ok (computed default_batches)
        else parsed

  unfoldable pub parse_stagger_value : Json → ℕ → Result (Spread F)
  unfolding spread_of_text spread_of_dict to_list
  parse_stagger_value (Json.text s) count = spread_of_text s count
  parse_stagger_value (Json.array vs) count =
      if length (to_list vs) == count
      then ok (each (to_list vs))
      else err "List length doesn't match agent count"
  parse_stagger_value (Json.object ms) count = spread_of_dict ms
  parse_stagger_value (Json.number n) count = ok (computed (linear (value (codes n))))
  parse_stagger_value (Json.boolean b) count = ok (computed (linear (if b then 1 else 0)))
  parse_stagger_value Json.null count = ok same

  -- `base_seconds`
  unfoldable pub base_seconds : Json → Result ℕ
  unfolding ends_with_unit
  base_seconds (Json.text s) =
      let parsed = parse_duration D (codes s) in if ends_with_unit (codes s) then parsed else ok 0
  base_seconds (Json.number n) = ok (value (codes n))
  base_seconds (Json.boolean b) = ok (if b then 1 else 0)
  base_seconds _ = ok 0

  -- A loop that does not end has no value.
  unfoldable pub times_or_endless : Option (List ℕ) → Result (List Json)
  unfolding number_of
  times_or_endless none = err "the loop over the batches does not end"
  times_or_endless (some times) = ok (map number_of times)

  -- The values of `count` agents.
  unfoldable pub expand_values : (ℕ → ℕ → ℕ → ℕ) → Json → Spread F → ℕ → ℕ → Result (List Json)
  unfolding replicate_value base_seconds times_or_endless
  expand_values randint base same count offset = ok (replicate_value count base)
  expand_values randint base (each values) count offset = ok values
  expand_values randint base (computed (random low high)) count offset =
      times_or_endless (expand_stagger D randint 0 (random low high) count offset)
  expand_values randint base (computed stagger) count offset = do
    seconds ← base_seconds base
    times_or_endless (expand_stagger D randint seconds stagger count offset)

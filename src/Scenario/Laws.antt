-- ===== src/Scenario/Laws.antt =====
-- Ranges of agent ids, and how many start times a group has.
pub mod Ids
use mathlib.Core.Option
use zano_shadow_sim.Base.{
  ℕ, zero, suc, ◌+◌, ◌*◌, ◌-◌, ◌≤◌, ◌<◌, ◌≡◌, refl, inl, inr, min, Bool, true, false, Option, none,
  some, List, [], ◌∷◌, ◌++◌, map, ltb, leb, if◌then◌else◌, length, length-append, length-map,
  length-range_from, range_from, range_from-add, arith, ap, sym, ◌∙◌, Bool-cases, Option-cases,
}
use zano_shadow_sim.Float.{Float}
use zano_shadow_sim.Scenario.{
  grown, batch_times, batched_loop, calculate_batched_schedule, Stagger, linear, expand_stagger,
  replicate,
}

module _ (D : Float) (growth : D.F) where
  length-batch_times : (start stagger i n : ℕ) → length (batch_times D start stagger i n) ≡ n
  unfolding batch_times
  length-batch_times start stagger i zero = refl
  length-batch_times start stagger i (suc n) = ap suc (length-batch_times start stagger (i + 1) n)

  -- A list of so many start times.
  abbrev pub HasLength : ℕ → Option (List ℕ) → Type 0
  HasLength n none = ⊥
  HasLength n (some times) = length times ≡ n

  HasLength-append :
      (n b : ℕ) (times : List ℕ) (o : Option (List ℕ))
      → length times ≡ b
      → b ≤ n
      → HasLength (n - b) o
      → HasLength n (Option.map (λ later. times ++ later) o)
  HasLength-append n b times none e h p = p
  HasLength-append n b times (some later) e h p = omega (arith, length-append times later)

  module _ (initial_delay interval max_size stagger : ℕ)
      (grows : (n : ℕ) → 0 < n → 0 < grown D growth n) where
    batched_loop-HasLength :
        (fuel remaining batch_num current : ℕ)
        → 0 < max_size
        → 0 < current
        → remaining < fuel
        → HasLength remaining (
            batched_loop D initial_delay interval growth max_size stagger fuel remaining batch_num
              current)
    unfolding batched_loop
    batched_loop-HasLength zero remaining batch_num current m c h = absurd (omega arith)
    batched_loop-HasLength (suc fuel) remaining batch_num current m c h =
        let size = min (min current max_size) remaining in
        let times = batch_times D (initial_delay + batch_num * interval) stagger 0 size in
        elim (Bool-cases (ltb 0 remaining)) [
          | inl e ↦ rw e (
              HasLength-append remaining size times _
                (length-batch_times (initial_delay + batch_num * interval) stagger 0 size)
                (omega arith)
                (batched_loop-HasLength fuel (remaining - size) (batch_num + 1)
                  (grown D growth current) m (grows current c) (ground arith)))
          | inr e ↦ rw e (ground arith)
        ]

    -- Where a batch that is not empty grows to one that is not empty, and neither the first nor
    -- the largest size is 0, the loop ends with one start time for each agent.
    pub calculate_batched_schedule-HasLength :
        (count initial_size : ℕ)
        → 0 < max_size
        → 0 < initial_size
        → HasLength count (
            calculate_batched_schedule D count initial_delay interval initial_size growth max_size
              stagger)
    unfolding calculate_batched_schedule
    calculate_batched_schedule-HasLength count initial_size m c =
        batched_loop-HasLength (count + 1) count 0 initial_size m c (omega arith)

  -- Once the batch size is 0 and stays 0 when it grows, the loop runs out of every amount of
  -- fuel while an agent is left.
  pub batched_loop_stuck :
      (initial_delay interval max_size stagger fuel remaining batch_num : ℕ)
      → grown D growth 0 ≡ 0
      → 0 < remaining
      → batched_loop D initial_delay interval growth max_size stagger fuel remaining batch_num 0
        ≡ none
  unfolding batched_loop
  batched_loop_stuck initial_delay interval max_size stagger zero remaining batch_num g h = refl
  batched_loop_stuck initial_delay interval max_size stagger (suc fuel) remaining batch_num g h =
      ground (
        arith,
        g,
        batched_loop_stuck initial_delay interval max_size stagger fuel remaining (batch_num + 1),
      )

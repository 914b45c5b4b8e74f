-- ===== src/Timing/Batches/Sizes.antt =====
-- The sizes of `calculate_batch_sizes` of scripts/config_generation/timeline.py.
use mathlib.Core.Option
use zano_shadow_sim.Base.{
  ℕ, zero, suc, ◌+◌, ◌-◌, ◌≤◌, ◌<◌, ◌≡◌, refl, min, Option, some, none, List, ◌∷◌, arith, ◌==◌,
  lt→ltb, ap, sum, All, false,
}
use zano_shadow_sim.Float.{Float}
use zano_shadow_sim.Timing.Batches.{next_size, sizes_loop, calculate_batch_sizes}

suc_not_zero : (n : ℕ) → (suc n == 0) ≡ false
suc_not_zero n = ground arith

fuel_suc : (n : ℕ) → n + 2 ≡ suc (n + 1)
fuel_suc n = omega arith

module _ (D : Float) (growth : D.F) where
  next_size-pos : (current : ℕ) → 0 < next_size D growth current
  unfolding next_size
  next_size-pos current = omega arith

  -- Sizes that place `n` users, none of more than `max_size`.
  abbrev pub Places : ℕ → ℕ → Option (List ℕ) → Type 0
  Places n max_size none = ⊥
  Places n max_size (some sizes) = (sum sizes ≡ n) × All (λ b. b ≤ max_size) sizes

  Places-cons :
      (n b max_size : ℕ) (o : Option (List ℕ))
      → b ≤ n
      → b ≤ max_size
      → Places (n - b) max_size o
      → Places n max_size (Option.map (λ sizes. b ∷ sizes) o)
  Places-cons n b max_size none h k p = p
  Places-cons n b max_size (some sizes) h k p = (omega arith, (k, p.1))

  sizes_loop-Places :
      (max_size fuel remaining current : ℕ)
      → 0 < max_size
      → 0 < current
      → remaining < fuel
      → Places remaining max_size (sizes_loop D growth max_size fuel remaining current)
  unfolding sizes_loop
  sizes_loop-Places max_size zero remaining current m c h = absurd (omega arith)
  sizes_loop-Places max_size (suc fuel) zero current m c h = (refl, tt)
  sizes_loop-Places max_size (suc fuel) (suc r) current m c h =
      rw (lt→ltb 0 (suc r) (omega arith), sizes_loop)
        (Places-cons (suc r) (min (min current max_size) (suc r)) max_size _ (omega arith)
          (omega arith)
          (sizes_loop-Places max_size fuel (suc r - min (min current max_size) (suc r))
            (next_size D growth current) m (next_size-pos current) (omega arith)))

  first_round :
      (max_size num_users initial : ℕ)
      → 0 < max_size
      → 0 < num_users
      → Places num_users max_size (sizes_loop D growth max_size (num_users + 2) num_users initial)
  unfolding sizes_loop
  first_round max_size num_users initial m c =
      rw (fuel_suc num_users, lt→ltb 0 num_users c, sizes_loop)
        (Places-cons num_users (min (min initial max_size) num_users) max_size _ (omega arith)
          (omega arith)
          (sizes_loop-Places max_size (num_users + 1)
            (num_users - min (min initial max_size) num_users) (next_size D growth initial) m
            (next_size-pos initial) (omega arith)))

  -- For every growth factor and first size the loop ends when `max_size` is not 0: the sizes add
  -- up to the number of users, and none is above `max_size`.
  pub calculate_batch_sizes-Places :
      (num_users initial_size max_size : ℕ)
      → 0 < max_size
      → Places num_users max_size (calculate_batch_sizes D num_users initial_size growth max_size)
  unfolding calculate_batch_sizes
  calculate_batch_sizes-Places zero initial_size max_size m = (refl, tt)
  calculate_batch_sizes-Places (suc n) initial_size max_size m =
      rw (suc_not_zero n) (first_round max_size (suc n) initial_size m (omega arith))

  -- With `max_size` 0 and a user left the loop runs out of every amount of fuel.
  pub sizes_loop_stuck :
      (fuel remaining current : ℕ)
      → 0 < remaining
      → sizes_loop D growth 0 fuel remaining current ≡ none
  unfolding sizes_loop
  sizes_loop_stuck zero remaining current h = refl
  sizes_loop_stuck (suc fuel) remaining current h =
      rw (lt→ltb 0 remaining h, sizes_loop)
        (ap (Option.map _) (
          sizes_loop_stuck fuel (remaining - min (min current 0) remaining)
            (next_size D growth current) (omega arith)))

-- ===== src/Timing/Batches.antt =====
-- The start times that scripts/config_generation/timeline.py computes: batches of users,
-- activity staggers, the bootstrap window and the order of upgrades.
pub mod Sizes
pub mod Schedule
pub mod Places
use mathlib.Core.Option
use zano_shadow_sim.Base.{
  ℕ, zero, suc, ◌+◌, ◌*◌, ◌-◌, ◌/◌, min, max, Bool, true, false, not, Option, some, none, List, [],
  ◌∷◌, ◌++◌, map, String, ltb, leb, ◌==◌, if◌then◌else◌, range_from, contains, str_eq,
}
use zano_shadow_sim.Base.Dict.{Dict, insert}
use zano_shadow_sim.Float.{Float}
use zano_shadow_sim.Timing.{
  user_start_time_s, min_bootstrap_end_time_s, funding_period_s, default_daemon_restart_gap_s,
}

module _ (D : Float) where
  open D use {F, of_ℕ, parse, add, mul, to_int}

  -- `int(current_size * growth_factor + 0.5)`, at least 1
  next_size : F → ℕ → ℕ
  next_size growth current =
      max (to_int (add (mul (of_ℕ current) growth) (parse (b'0' ∷ b'.' ∷ b'5' ∷ [])))) 1

  -- The `while` loop, with fuel: `none` means that the fuel ran out.
  pub sizes_loop : F → ℕ → ℕ → ℕ → ℕ → Option (List ℕ)
  unfolding next_size
  sizes_loop growth max_size zero remaining current = none
  sizes_loop growth max_size (suc fuel) remaining current =
      let batch_size = min (min current max_size) remaining in
      let rest =
        sizes_loop growth max_size fuel (remaining - batch_size) (next_size growth current) in
      let more = Option.map (λ sizes. batch_size ∷ sizes) rest in
      if ltb 0 remaining then more else some []

  -- Each round but the first places a user when `max_size` is not 0: with two rounds more than
  -- there are users the loop ends.
  unfoldable pub calculate_batch_sizes : ℕ → ℕ → F → ℕ → Option (List ℕ)
  unfolding sizes_loop
  calculate_batch_sizes num_users initial_size growth_factor max_size =
      if num_users == 0
      then some []
      else sizes_loop growth_factor max_size (num_users + 2) num_users initial_size

-- The inner loop: `(user_index, start)` for the users of a batch from the `i`-th on.
batch_entries : ℕ → ℕ → ℕ → ℕ → ℕ → List (ℕ × ℕ)
batch_entries user_index batch_start_time stagger i zero = []
batch_entries user_index batch_start_time stagger i (suc left) =
    (user_index, batch_start_time + i * stagger)
    ∷ batch_entries (user_index + 1) batch_start_time stagger (i + 1) left

-- The loop over the batches from number `batch_num` on.
schedule_loop : ℕ → ℕ → ℕ → ℕ → ℕ → List ℕ → List (ℕ × ℕ)
unfolding batch_entries
schedule_loop initial_delay interval stagger batch_num user_index [] = []
schedule_loop initial_delay interval stagger batch_num user_index (batch_size ∷ batch_sizes) =
    batch_entries user_index (initial_delay + batch_num * interval) stagger 0 batch_size
    ++ schedule_loop initial_delay interval stagger (batch_num + 1) (user_index + batch_size)
        batch_sizes

unfoldable pub calculate_batch_schedule :
    (D : Float) → ℕ → ℕ → ℕ → ℕ → D.F → ℕ → ℕ → Option (List (ℕ × ℕ))
unfolding calculate_batch_sizes schedule_loop
calculate_batch_schedule D num_users initial_delay interval initial_size growth max_size stagger =
    Option.map (schedule_loop initial_delay interval stagger 0 0)
      (calculate_batch_sizes D num_users initial_size growth max_size)

-- `calculate_bootstrap_timing`: the end of the bootstrap, the start of activity, the last spawn.
module _ (D : Float) where
  open D use {F, of_ℕ, parse, add, mul, to_int}

  -- `int(x * (1 + BOOTSTRAP_BUFFER_PERCENT))`
  unfoldable pub with_buffer : ℕ → ℕ
  with_buffer x = to_int (mul (of_ℕ x) (add (of_ℕ 1) (parse (b'0' ∷ b'.' ∷ b'2' ∷ b'0' ∷ []))))

  unfoldable pub calculate_bootstrap_timing : ℕ → ℕ → ℕ × ℕ × ℕ
  unfolding with_buffer
  calculate_bootstrap_timing num_users stagger_interval =
      let last_user_spawn =
        (if ltb 0 num_users
          then user_start_time_s + (num_users - 1) * stagger_interval
          else user_start_time_s) in
      let bootstrap_end = max min_bootstrap_end_time_s (with_buffer last_user_spawn) in
      (bootstrap_end, bootstrap_end + funding_period_s, last_user_spawn)

pub data UpgradeOrder : Type 0 where
  sequential random miners_first : UpgradeOrder

-- The agents that are among the miners, and those that are not.
unfoldable pub select : Bool → List String → List String → List String
select wanted miner_ids [] = []
select wanted miner_ids (a ∷ agents) =
    let rest = select wanted miner_ids agents in
    if (if wanted then contains a miner_ids else not (contains a miner_ids)) then a ∷ rest else rest

-- `rng.shuffle` of a generator with this seed is `shuffle`.
unfoldable pub ordered_agents :
    (ℕ → List String → List String) → UpgradeOrder → ℕ → List String → List String → List String
unfolding select
ordered_agents shuffle random seed agents miner_ids = shuffle seed agents
ordered_agents shuffle miners_first seed agents miner_ids =
    select true miner_ids agents ++ select false miner_ids agents
ordered_agents shuffle sequential seed agents miner_ids = agents

-- The phases of the agents from the `i`-th on, entered into the dict.
unfoldable pub schedule_from : ℕ → ℕ → ℕ → List String → Dict (ℕ × ℕ) → Dict (ℕ × ℕ)
schedule_from start stagger i [] schedule = schedule
schedule_from start stagger i (agent_id ∷ rest) schedule =
    let phase0_stop = start + i * stagger in
    schedule_from start stagger (i + 1) rest
      (insert agent_id (phase0_stop, phase0_stop + default_daemon_restart_gap_s) schedule)

unfoldable pub calculate_upgrade_schedule :
    (ℕ → List String → List String)
    → List String
    → ℕ
    → ℕ
    → UpgradeOrder
    → List String
    → ℕ
    → Dict (ℕ × ℕ)
unfolding ordered_agents schedule_from
calculate_upgrade_schedule shuffle agents start stagger order miner_ids seed =
    schedule_from start stagger 0 (ordered_agents shuffle order seed agents miner_ids) []

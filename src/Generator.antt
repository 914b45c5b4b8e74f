-- ===== src/Generator.antt =====
-- scripts/generate_config.py: what a configuration is generated from, and its timing.
pub mod Agents
pub mod Sections
pub mod Upgrade
pub mod Entries
pub mod Build
use zano_shadow_sim.Base.{
  ℕ, ◌+◌, ◌*◌, ◌-◌, max, Bool, true, false, ◌&&◌, ◌||◌, Option, none, some, List, [], ◌∷◌, String,
  str_eq, ltb, leb, if◌then◌else◌, codes, Result, ok, err, ◌>>=◌,
}
use zano_shadow_sim.Float.{Float}
use zano_shadow_sim.Timing.{
  user_start_time_s, min_bootstrap_end_time_s, funding_period_s, default_auto_threshold,
  default_initial_delay_s, default_intra_batch_stagger_s,
}
use zano_shadow_sim.Timing.Duration.{parse_duration}
use zano_shadow_sim.Timing.Batches.{
  with_buffer, calculate_batch_sizes, calculate_batch_schedule, UpgradeOrder,
}
use zano_shadow_sim.Calibrate.{Calibration, Calibrator, compute_safe_interval}

abbrev pub min_activity_period_s : ℕ
min_activity_period_s = 7200

abbrev pub num_monero_fallback_seeds : ℕ
num_monero_fallback_seeds = 6

-- `FIXED_MINERS`: hash rates and start offsets
abbrev pub fixed_miners : List (ℕ × ℕ)
fixed_miners = (25, 0) ∷ (25, 1) ∷ (30, 2) ∷ (10, 3) ∷ (10, 4) ∷ []

-- Durations are texts.
pub record BatchedBootstrap : Type 0 where
  pub mode : String
  pub batch_interval : List ℕ
  pub initial_batch_size : ℕ
  pub max_batch_size : ℕ

pub record TimingOverrides : Type 0 where
  pub user_spawn_start : Option (List ℕ)
  pub bootstrap_end_time : Option (List ℕ)
  pub regular_user_start : Option (List ℕ)
  pub md_start_time : Option (List ℕ)
  pub tx_interval : Option ℕ

-- A float is here the text that it is printed as.
pub record MinerDistributorConfig : Type 0 where
  pub n_recipients : ℕ
  pub out_per_tx : ℕ
  pub output_amount : String
  pub funding_cycle_interval : String

pub record RelayNodes : Type 0 where
  pub count : ℕ
  pub spawn_start_s : ℕ
  pub stagger_s : ℕ

pub record UpgradeSpec : Type 0 where
  pub binary_v1 : String
  pub binary_v2 : String
  pub upgrade_start : Option (List ℕ)
  pub stagger_s : ℕ
  pub order : UpgradeOrder
  pub steady_state_duration_s : ℕ
  pub post_upgrade_duration_s : ℕ

pub record GenerationConfig : Type 0 where
  pub total_agents : ℕ
  pub duration : List ℕ
  pub stagger_interval_s : ℕ
  pub simulation_seed : ℕ
  pub gml_path : String
  pub fast_mode : Bool
  pub process_threads : ℕ
  pub daemon_binary : String
  pub tx_send_probability : String
  pub parallelism : ℕ
  pub native_preemption : Option Bool
  pub fallback_seeds_mode : String
  pub batched_bootstrap : BatchedBootstrap
  pub timing : TimingOverrides
  pub miner_distributor : MinerDistributorConfig
  pub relay_nodes : RelayNodes
  pub upgrade : Option UpgradeSpec

-- The users' schedule: `(user_index, start)` for every user, where they start in batches.
pub record SpawnSchedule : Type 0 where
  pub use_batched : Bool
  pub batch_interval_s : ℕ
  pub user_spawn_start_s : ℕ
  pub last_user_spawn_s : ℕ
  pub batch_sizes : List ℕ
  pub batch_schedule : List (ℕ × ℕ)

unfoldable pub is_batched : ℕ → GenerationConfig → Bool
is_batched num_users cfg =
    str_eq cfg.batched_bootstrap.mode "true"
    || (str_eq cfg.batched_bootstrap.mode "auto" && leb default_auto_threshold num_users)

-- `batch_schedule[-1][1] if batch_schedule else 0`
unfoldable pub last_start : List (ℕ × ℕ) → ℕ
last_start [] = 0
last_start ((user, start) ∷ []) = start
last_start (entry ∷ next ∷ schedule) = last_start (next ∷ schedule)

-- A loop of timeline.py that never ends has no value.
unfoldable pub ended {ℓ} : {A : Type ℓ} → Option A → Result A
ended none = err "the loop over the batches does not end"
ended (some a) = ok a

module _ (D : Float) where
  open D use {of_ℕ}

  -- A duration or, where it is not given, the value.
  unfoldable pub given_or : Option (List ℕ) → ℕ → Result ℕ
  given_or none value = ok value
  given_or (some text) value = parse_duration D text

  unfoldable pub spawn_in_batches : ℕ → ℕ → ℕ → GenerationConfig → Result SpawnSchedule
  unfolding ended last_start
  spawn_in_batches num_users batch_interval_s user_spawn_start_s cfg =
      let initial_size = cfg.batched_bootstrap.initial_batch_size in
      let max_size = cfg.batched_bootstrap.max_batch_size in
      do
        sizes ← ended (calculate_batch_sizes D num_users initial_size (of_ℕ 2) max_size)
        schedule ← ended (
            calculate_batch_schedule D num_users user_spawn_start_s batch_interval_s initial_size
              (of_ℕ 2) max_size default_intra_batch_stagger_s)
        ok (record {
          use_batched = true;
          batch_interval_s = batch_interval_s;
          user_spawn_start_s = user_spawn_start_s;
          last_user_spawn_s = last_start schedule;
          batch_sizes = sizes;
          batch_schedule = schedule;
        })

  unfoldable pub spawn_in_turn : Bool → ℕ → ℕ → ℕ → GenerationConfig → SpawnSchedule
  spawn_in_turn use_batched num_users batch_interval_s user_spawn_start_s cfg = record {
    use_batched = use_batched;
    batch_interval_s = batch_interval_s;
    user_spawn_start_s = user_spawn_start_s;
    last_user_spawn_s =
        if ltb 0 num_users
        then user_spawn_start_s + (num_users - 1) * cfg.stagger_interval_s
        else user_spawn_start_s;
    batch_sizes = [];
    batch_schedule = [];
  }

  unfoldable pub spawn_with : ℕ → GenerationConfig → ℕ → ℕ → Result SpawnSchedule
  unfolding is_batched spawn_in_batches spawn_in_turn
  spawn_with num_users cfg batch_interval_s user_spawn_start_s =
      let use_batched = is_batched num_users cfg in
      if use_batched && ltb 0 num_users
      then spawn_in_batches num_users batch_interval_s user_spawn_start_s cfg
      else ok (spawn_in_turn use_batched num_users batch_interval_s user_spawn_start_s cfg)

  unfoldable pub spawn_start : ℕ → GenerationConfig → Result ℕ
  unfolding is_batched given_or
  spawn_start num_users cfg =
      given_or cfg.timing.user_spawn_start
        (if is_batched num_users cfg then default_initial_delay_s else user_start_time_s)

  unfoldable pub compute_user_spawn_schedule : ℕ → GenerationConfig → Result SpawnSchedule
  unfolding spawn_start spawn_with
  compute_user_spawn_schedule num_users cfg = do
    batch_interval_s ← parse_duration D cfg.batched_bootstrap.batch_interval
    user_spawn_start_s ← spawn_start num_users cfg
    spawn_with num_users cfg batch_interval_s user_spawn_start_s

  -- The end of the bootstrap, the distributor's start and the users' start; the warnings are left
  -- out.
  unfoldable pub compute_timing_chain : GenerationConfig → ℕ → Result (ℕ × ℕ × ℕ)
  unfolding given_or with_buffer
  compute_timing_chain cfg last_user_spawn_s = do
    bootstrap_end_time_s ←
        given_or cfg.timing.bootstrap_end_time
          (max min_bootstrap_end_time_s (with_buffer D last_user_spawn_s))
    md_start_time_s ← given_or cfg.timing.md_start_time bootstrap_end_time_s
    activity_start_time_s ←
        given_or cfg.timing.regular_user_start (md_start_time_s + funding_period_s)
    ok (bootstrap_end_time_s, md_start_time_s, activity_start_time_s)

  -- With the outcome that a calibration would have, the number of cores and the calibrator's state.
  unfoldable pub resolve_tx_interval :
      Option Calibration → ℕ → GenerationConfig → ℕ → ℕ → Calibrator → ℕ × Calibrator
  resolve_tx_interval outcome cores cfg num_users total_nodes c =
      let tx_interval : ℕ = elim cfg.timing.tx_interval [
        | none ↦ if cfg.fast_mode then 120 else 60
        | some n ↦ n
      ] in
      let (safe_interval, c') =
        compute_safe_interval D outcome num_users tx_interval (some total_nodes) cores c in
      (if ltb tx_interval safe_interval then safe_interval else tx_interval, c')

-- `_maybe_warn_late_relay`, without its warning
unfoldable pub last_relay_spawn : GenerationConfig → ℕ
last_relay_spawn cfg =
    if ltb 0 cfg.relay_nodes.count
    then cfg.relay_nodes.spawn_start_s + (cfg.relay_nodes.count - 1) * cfg.relay_nodes.stagger_s
    else 0

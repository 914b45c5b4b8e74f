-- ===== src/Generator/Build/Total.antt =====
-- `generate_config` of scripts/generate_config.py returns.
use mathlib.Core.Path.{subst}
use zano_shadow_sim.Base.{
  ℕ, ◌<◌, ◌≡◌, refl, true, ◌&&◌, Option, none, some, List, String, ltb, arith, inl, inr, Bool-cases,
  bind-ok, ok-injective, contains, contains-append, length, ok, ◌++◌, ◌+◌,
}
use zano_shadow_sim.Float.{Float}
use zano_shadow_sim.Timing.{default_intra_batch_stagger_s}
use zano_shadow_sim.Timing.Duration.{parse_duration}
use zano_shadow_sim.Timing.Batches.{calculate_batch_schedule, calculate_batch_sizes}
use zano_shadow_sim.Timing.Batches.Sizes.{calculate_batch_sizes-Places}
use zano_shadow_sim.Timing.Batches.Schedule.{calculate_batch_schedule-ListsAll}
use zano_shadow_sim.Calibrate.{Calibration, Calibrator}
use zano_shadow_sim.Generator.{
  GenerationConfig, UpgradeSpec, is_batched, ended, spawn_in_batches, spawn_with, spawn_start,
  compute_user_spawn_schedule, compute_timing_chain, fixed_miners, given_or,
}
use zano_shadow_sim.Generator.Agents.{numbered}
use zano_shadow_sim.Generator.Build.{
  Plan, requested_duration, plan_with, plan_upgraded, plan_chained, plan_spawned, make_plan, build,
  build_agents, generate_config,
}
use zano_shadow_sim.Generator.Upgrade.{
  Upgrade, numbered_ids, all_agent_ids, upgrade_from, plan_upgrade, plan_if,
}
use zano_shadow_sim.Generator.Build.Listed.{KeepsMembers, lookup-scheduled, contains-numbered_ids}
use zano_shadow_sim.Generator.Build.Plans.{IsPlanned, make_plan-IsPlanned, IsPlanned-spawn}
use zano_shadow_sim.Generator.Build.Starts.{compute_user_spawn_schedule-IsListed}
use zano_shadow_sim.Generator.Build.Returns.{
  IsOk, IsReadable?, HasTimes, bind-IsOk, given_or-IsOk, ended-sizes, ended-schedule,
  build_agents-IsOk,
}

-- An upgrade's start that is given can be read.
abbrev pub IsUpgradable : Float → Option UpgradeSpec → Type 0
IsUpgradable D none = Unit
IsUpgradable D (some spec) = IsReadable? D spec.upgrade_start

-- Every duration that is given can be read.
pub record IsReadable (D : Float) (cfg : GenerationConfig) : Type 0 where
  pub interval : IsOk (parse_duration D cfg.batched_bootstrap.batch_interval)
  pub spawn : IsReadable? D cfg.timing.user_spawn_start
  pub bootstrap : IsReadable? D cfg.timing.bootstrap_end_time
  pub distributor : IsReadable? D cfg.timing.md_start_time
  pub activity : IsReadable? D cfg.timing.regular_user_start
  pub total : IsOk (requested_duration D cfg.duration)
  pub upgrade : IsUpgradable D cfg.upgrade

-- A chain that is there has its planned upgrade's times for everyone.
plan_upgrade-HasTimes :
    (D : Float) (shuffle : ℕ → List String → List String) (cfg : GenerationConfig) (base : ℕ)
    (spec : Option UpgradeSpec) (upgrade : Option Upgrade) (agent_id : String)
    → KeepsMembers shuffle
    → contains agent_id (all_agent_ids cfg) ≡ true
    → plan_upgrade D shuffle cfg base spec ≡ ok upgrade
    → HasTimes upgrade agent_id
unfolding plan_upgrade upgrade_from
plan_upgrade-HasTimes D shuffle cfg base none upgrade agent_id keeps h e =
    subst (λ u. HasTimes u agent_id) (ok-injective none upgrade e) tt
plan_upgrade-HasTimes D shuffle cfg base (some spec) upgrade agent_id keeps h e =
    let (start, _, e') =
      bind-ok (given_or D spec.upgrade_start (base + spec.steady_state_duration_s))
        (λ start. ok (some (upgrade_from D shuffle cfg spec start))) upgrade e in
    subst (λ u. HasTimes u agent_id)
      (ok-injective (some (upgrade_from D shuffle cfg spec start)) upgrade e')
      (lookup-scheduled shuffle (all_agent_ids cfg) start spec.stagger_s spec.order
        (numbered_ids "miner" (length fixed_miners)) cfg.simulation_seed agent_id keeps h)

contains-miner :
    (cfg : GenerationConfig) (i : ℕ)
    → i < length fixed_miners
    → contains (numbered "miner" i) (all_agent_ids cfg) ≡ true
unfolding all_agent_ids
contains-miner cfg i h = ground (
  arith,
  contains-numbered_ids "miner" (length fixed_miners) i h,
  contains-append (numbered "miner" i) (numbered_ids "miner" (length fixed_miners))
      (numbered_ids "user" cfg.total_agents ++ numbered_ids "relay" cfg.relay_nodes.count),
)

contains-user :
    (cfg : GenerationConfig) (i : ℕ)
    → i < cfg.total_agents
    → contains (numbered "user" i) (all_agent_ids cfg) ≡ true
unfolding all_agent_ids
contains-user cfg i h = ground (
  arith,
  contains-numbered_ids "user" cfg.total_agents i h,
  contains-append (numbered "user" i) (numbered_ids "miner" (length fixed_miners))
      (numbered_ids "user" cfg.total_agents ++ numbered_ids "relay" cfg.relay_nodes.count),
  contains-append (numbered "user" i) (numbered_ids "user" cfg.total_agents)
      (numbered_ids "relay" cfg.relay_nodes.count),
)

contains-relay :
    (cfg : GenerationConfig) (i : ℕ)
    → i < cfg.relay_nodes.count
    → contains (numbered "relay" i) (all_agent_ids cfg) ≡ true
unfolding all_agent_ids
contains-relay cfg i h = ground (
  arith,
  contains-numbered_ids "relay" cfg.relay_nodes.count i h,
  contains-append (numbered "relay" i) (numbered_ids "miner" (length fixed_miners))
      (numbered_ids "user" cfg.total_agents ++ numbered_ids "relay" cfg.relay_nodes.count),
  contains-append (numbered "relay" i) (numbered_ids "user" cfg.total_agents)
      (numbered_ids "relay" cfg.relay_nodes.count),
)

plan_upgrade-IsOk :
    (D : Float) (shuffle : ℕ → List String → List String) (cfg : GenerationConfig) (base : ℕ)
    (spec : Option UpgradeSpec)
    → IsUpgradable D spec
    → IsOk (plan_upgrade D shuffle cfg base spec)
unfolding plan_upgrade
plan_upgrade-IsOk D shuffle cfg base none h = (none, refl)
plan_upgrade-IsOk D shuffle cfg base (some spec) h =
    bind-IsOk (given_or D spec.upgrade_start (base + spec.steady_state_duration_s)) _
      (given_or-IsOk D spec.upgrade_start _ h) (λ start _. (_, refl))

module _ (D : Float) (shuffle : ℕ → List String → List String) (keeps : KeepsMembers shuffle)
    (cfg : GenerationConfig) (positive : 0 < cfg.batched_bootstrap.max_batch_size)
    (readable : IsReadable D cfg) where
  spawn_with-IsOk : (interval start : ℕ) → IsOk (spawn_with D cfg.total_agents cfg interval start)
  unfolding spawn_with spawn_in_batches
  spawn_with-IsOk interval start =
      let initial = cfg.batched_bootstrap.initial_batch_size in
      let max_size = cfg.batched_bootstrap.max_batch_size in
      elim (Bool-cases (is_batched cfg.total_agents cfg && ltb 0 cfg.total_agents))
        as (λ _. IsOk (spawn_with D cfg.total_agents cfg interval start)) [
          | inl b ↦
              rw (b, spawn_with)
                (bind-IsOk
                  (ended (calculate_batch_sizes D cfg.total_agents initial (D.of_ℕ 2) max_size)) _
                  (ended-sizes D (D.of_ℕ 2) cfg.total_agents max_size _ (
                    calculate_batch_sizes-Places D (D.of_ℕ 2) cfg.total_agents initial max_size
                      positive))
                  (λ sizes _.
                    bind-IsOk
                      (ended (
                        calculate_batch_schedule D cfg.total_agents start interval initial
                          (D.of_ℕ 2) max_size default_intra_batch_stagger_s))
                      _
                      (ended-schedule cfg.total_agents _ (
                        calculate_batch_schedule-ListsAll D cfg.total_agents start interval initial
                          (D.of_ℕ 2) max_size default_intra_batch_stagger_s positive))
                      (λ schedule _. (_, refl))))
          | inr b ↦ rw (b, spawn_with) (_, refl)
        ]

  compute_user_spawn_schedule-IsOk : IsOk (compute_user_spawn_schedule D cfg.total_agents cfg)
  unfolding compute_user_spawn_schedule spawn_start
  compute_user_spawn_schedule-IsOk =
      bind-IsOk (parse_duration D cfg.batched_bootstrap.batch_interval) _ readable.interval
        (λ interval _.
          bind-IsOk (spawn_start D cfg.total_agents cfg) _
            (given_or-IsOk D cfg.timing.user_spawn_start _ readable.spawn)
            (λ start _. spawn_with-IsOk interval start))

  compute_timing_chain-IsOk : (last : ℕ) → IsOk (compute_timing_chain D cfg last)
  unfolding compute_timing_chain
  compute_timing_chain-IsOk last =
      bind-IsOk (given_or D cfg.timing.bootstrap_end_time _) _
        (given_or-IsOk D cfg.timing.bootstrap_end_time _ readable.bootstrap)
        (λ bootstrap _.
          bind-IsOk (given_or D cfg.timing.md_start_time _) _
            (given_or-IsOk D cfg.timing.md_start_time _ readable.distributor)
            (λ distributor _.
              bind-IsOk (given_or D cfg.timing.regular_user_start _) _
                (given_or-IsOk D cfg.timing.regular_user_start _ readable.activity)
                (λ activity _. (_, refl))))

  module _ (outcome : Option Calibration) (cores : ℕ) (c : Calibrator) where
    make_plan-IsOk : IsOk (make_plan D shuffle outcome cores cfg c)
    unfolding make_plan plan_spawned plan_chained plan_upgraded plan_if
    make_plan-IsOk =
        bind-IsOk (compute_user_spawn_schedule D cfg.total_agents cfg) _
          compute_user_spawn_schedule-IsOk
          (λ spawn _.
            bind-IsOk (compute_timing_chain D cfg spawn.last_user_spawn_s) _
              (compute_timing_chain-IsOk spawn.last_user_spawn_s)
              (λ chain _.
                bind-IsOk (plan_upgrade D shuffle cfg chain.2 cfg.upgrade) _
                  (plan_upgrade-IsOk D shuffle cfg chain.2 cfg.upgrade readable.upgrade)
                  (λ upgrade _.
                    bind-IsOk (requested_duration D cfg.duration) _ readable.total
                      (λ requested _. (_, refl)))))

    -- Every agent of a plan has its times.
    IsPlanned-HasTimes :
        (p : Plan) (agent_id : String)
        → IsPlanned D shuffle outcome cores cfg c p
        → contains agent_id (all_agent_ids cfg) ≡ true
        → HasTimes p.upgrade agent_id
    unfolding plan_with plan_if
    IsPlanned-HasTimes p agent_id (spawn, chain, upgrade, requested, _, e, same) h =
        subst (λ (q : Plan). HasTimes q.upgrade agent_id) same
          (plan_upgrade-HasTimes D shuffle cfg chain.2 cfg.upgrade upgrade agent_id keeps h e)

    -- Where every duration that is given can be read and the largest batch is not 0, and the
    -- shuffle of a seed loses nobody, a configuration is generated, with and without an upgrade:
    -- the loops over the batches end and every agent is found in the schedule of the upgrade.
    pub generate_config-returns :
        (dir : String) → IsOk (generate_config D shuffle outcome cores dir cfg c)
    unfolding generate_config build
    generate_config-returns dir =
        bind-IsOk (make_plan D shuffle outcome cores cfg c) (build dir cfg) make_plan-IsOk
          (λ p plan.
            let planned = make_plan-IsPlanned D shuffle outcome cores cfg c p plan in
            let listed =
              compute_user_spawn_schedule-IsListed D cfg positive p.spawn
                (IsPlanned-spawn D shuffle outcome cores cfg c p planned) in
            bind-IsOk (build_agents cfg p) _
              (build_agents-IsOk p.upgrade cfg p refl listed.0
                (λ i lt. IsPlanned-HasTimes p _ planned (contains-miner cfg i lt))
                (λ i lt. IsPlanned-HasTimes p _ planned (contains-user cfg i lt))
                (λ i lt. IsPlanned-HasTimes p _ planned (contains-relay cfg i lt)))
              (λ agents _. (_, refl)))

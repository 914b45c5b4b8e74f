-- ===== src/Generator/Build.antt =====
-- `generate_config` of scripts/generate_config.py.
pub mod Timeline
pub mod Lasting
pub mod Plans
pub mod Listed
pub mod Returns
pub mod Total
pub mod Starts
pub mod Users
use mathlib.Core.Option
use zano_shadow_sim.Base.{
  ℕ, ◌+◌, ◌*◌, ◌-◌, max, Bool, true, false, not, ◌&&◌, Option, none, some, List, [], ◌∷◌, ◌++◌, map,
  String, str_eq, ltb, if◌then◌else◌, is_empty, is_some, get_elem?, length, range_from, Result, ok,
  err, ◌>>=◌,
}
use zano_shadow_sim.Base.Dict.{Dict, lookup, insert}
use zano_shadow_sim.Float.{Float}
use zano_shadow_sim.Timing.{user_start_time_s}
use zano_shadow_sim.Timing.Duration.{parse_duration}
use zano_shadow_sim.Timing.Batches.{calculate_upgrade_schedule}
use zano_shadow_sim.Calibrate.{
  Calibration, Calibrator, compute_stagger, calculate_activity_start_times,
}
use zano_shadow_sim.Shared.Json.{Json, Members}
use zano_shadow_sim.Generator.{
  GenerationConfig, UpgradeSpec, SpawnSchedule, fixed_miners, min_activity_period_s,
  num_monero_fallback_seeds, given_or, compute_user_spawn_schedule, compute_timing_chain,
  resolve_tx_interval, last_relay_spawn,
}
use zano_shadow_sim.Generator.Agents.{
  numbered, int_value, fields, generate_miner_agent, generate_miner_agent_phased,
  generate_user_agent, generate_user_agent_phased, generate_relay_agent,
  generate_relay_agent_phased,
}
use zano_shadow_sim.Generator.Sections.{
  UpgradeTiming, TimingInfo, build_general_config, generate_metadata,
}
use zano_shadow_sim.Generator.Upgrade.{
  numbered_ids, Phases, phase_times, Upgrade, last_complete, all_agent_ids, upgrade_from,
  plan_upgrade, plan_if,
}
use zano_shadow_sim.Generator.Entries.{
  Agents, emit, add_miners, add_user, add_users, add_relays, add_seeds, seed_binary,
  distributor_agent, simulation_monitor,
}

-- The least duration, and the duration that is asked for.
unfoldable pub min_duration : Option Upgrade → ℕ → ℕ
min_duration none activity_start_time_s = activity_start_time_s + min_activity_period_s
min_duration (some u) activity_start_time_s =
    u.info.last_upgrade_complete_s + u.info.spec.post_upgrade_duration_s

unfoldable pub requested_duration : (D : Float) → List ℕ → Result ℕ
requested_duration D [] = ok 0
requested_duration D (c ∷ text) = parse_duration D (c ∷ text)

-- All that is computed before the agents are.
pub record Plan : Type 0 where
  pub spawn : SpawnSchedule
  pub bootstrap_end_time_s : ℕ
  pub md_start_time_s : ℕ
  pub activity_start_time_s : ℕ
  pub upgrade : Option Upgrade
  pub requested_duration_s : ℕ
  pub duration_s : ℕ
  pub tx_interval : ℕ
  pub activity_stagger_s : ℕ
  pub user_activity_times : List ℕ

-- The users in the order in which they are added, with their starts.
unfoldable pub user_starts : GenerationConfig → SpawnSchedule → List (ℕ × ℕ)
user_starts cfg spawn =
    if spawn.use_batched && not (is_empty spawn.batch_schedule)
    then spawn.batch_schedule
    else map (λ i. (i, user_start_time_s + i * cfg.stagger_interval_s))
        (range_from 0 cfg.total_agents)

-- What follows the relays.
unfoldable pub with_services : GenerationConfig → Plan → Agents → Agents
unfolding add_seeds seed_binary insert
with_services cfg p relays =
    let seeded =
      (if str_eq cfg.fallback_seeds_mode "custom"
        then add_seeds (seed_binary cfg) (range_from 0 num_monero_fallback_seeds) relays
        else relays) in
    insert "simulation-monitor" simulation_monitor
      (insert "miner-distributor" (distributor_agent cfg p.md_start_time_s) seeded)

unfoldable pub with_users : GenerationConfig → Plan → Agents → Result Agents
unfolding add_users user_starts
with_users cfg p miners =
    add_users p.upgrade cfg p.tx_interval p.activity_start_time_s p.user_activity_times
      (user_starts cfg p.spawn) miners

unfoldable pub with_relays : GenerationConfig → Plan → Agents → Result Agents
unfolding add_relays with_services
with_relays cfg p users = do
  relays ← add_relays p.upgrade cfg (range_from 0 cfg.relay_nodes.count) users
  ok (with_services cfg p relays)

unfoldable pub with_miners : GenerationConfig → Plan → Agents → Result Agents
unfolding with_users with_relays
with_miners cfg p miners = do users ← with_users cfg p miners; with_relays cfg p users

unfoldable pub build_agents : GenerationConfig → Plan → Result Agents
unfolding add_miners with_miners
build_agents cfg p = do
  miners ← add_miners p.upgrade cfg.daemon_binary 0 fixed_miners []
  with_miners cfg p miners

unfoldable pub timing_info : GenerationConfig → Plan → TimingInfo
timing_info cfg p = record {
  bootstrap_end_time_s = p.bootstrap_end_time_s;
  md_start_time_s = p.md_start_time_s;
  activity_start_time_s = p.activity_start_time_s;
  last_user_spawn_s = p.spawn.last_user_spawn_s;
  user_spawn_start_s = p.spawn.user_spawn_start_s;
  duration_s = p.duration_s;
  requested_duration_s = p.requested_duration_s;
  use_batched = p.spawn.use_batched;
  batch_sizes = p.spawn.batch_sizes;
  batch_interval_s = p.spawn.batch_interval_s;
  activity_stagger_s = p.activity_stagger_s;
  tx_interval = p.tx_interval;
  activity_rollout_duration_s = (cfg.total_agents - 1) * p.activity_stagger_s;
  relay_spawn_start_s = cfg.relay_nodes.spawn_start_s;
  relay_stagger_s = cfg.relay_nodes.stagger_s;
  last_relay_spawn_s = last_relay_spawn cfg;
  upgrade = Option.map (λ (u : Upgrade). u.info) p.upgrade;
}

unfoldable pub members_of : Agents → Members
members_of [] = Members.empty
members_of ((agent_id, agent) ∷ agents) =
    Members.member agent_id (Json.object agent) (members_of agents)

unfoldable pub general_section : String → GenerationConfig → Plan → Members
general_section default_shared_dir cfg p =
    build_general_config default_shared_dir p.duration_s cfg.parallelism cfg.simulation_seed
      p.bootstrap_end_time_s cfg.fast_mode cfg.process_threads cfg.native_preemption
      cfg.total_agents none none cfg.fallback_seeds_mode

unfoldable pub assemble : String → GenerationConfig → Plan → Agents → Members
unfolding timing_info members_of general_section
assemble default_shared_dir cfg p agents = fields (
    (
      "metadata",
      Json.object (
          generate_metadata (length fixed_miners) cfg.total_agents (timing_info cfg p)
            cfg.simulation_seed cfg.gml_path cfg.fast_mode cfg.stagger_interval_s
            cfg.relay_nodes.count),
    )
    ∷ ("general", Json.object (general_section default_shared_dir cfg p))
    ∷ (
      "network",
      Json.object
          (fields (("path", Json.text cfg.gml_path) ∷ ("peer_mode", Json.text "Dynamic") ∷ [])),
    )
    ∷ ("agents", Json.object (members_of agents))
    ∷ [])

unfoldable pub build : String → GenerationConfig → Plan → Result (Members × TimingInfo)
unfolding build_agents assemble timing_info
build default_shared_dir cfg p = do
  agents ← build_agents cfg p
  ok (assemble default_shared_dir cfg p agents, timing_info cfg p)

-- With floats, the shuffle of a seed, the outcome that a calibration would have, and the cores.
module _ (D : Float) (shuffle : ℕ → List String → List String) (outcome : Option Calibration)
    (cores : ℕ) where
  -- The nodes of the simulation.
  unfoldable pub total_nodes : GenerationConfig → ℕ
  total_nodes cfg = length fixed_miners + cfg.total_agents + cfg.relay_nodes.count

  unfoldable pub plan_with :
      GenerationConfig → SpawnSchedule → ℕ × ℕ × ℕ → Option Upgrade → ℕ → Calibrator → Plan
  unfolding total_nodes min_duration
  plan_with cfg spawn (bootstrap_end_time_s, md_start_time_s, activity_start_time_s) upgrade
        requested_duration_s c =
      let n = cfg.total_agents in
      let nodes = total_nodes cfg in
      let (tx_interval, c₁) = resolve_tx_interval D outcome cores cfg n nodes c in
      let (stagger, c₂) = compute_stagger D outcome n tx_interval (some nodes) cores c₁ in
      record {
        spawn = spawn;
        bootstrap_end_time_s = bootstrap_end_time_s;
        md_start_time_s = md_start_time_s;
        activity_start_time_s = activity_start_time_s;
        upgrade = upgrade;
        requested_duration_s = requested_duration_s;
        duration_s = max requested_duration_s (min_duration upgrade activity_start_time_s);
        tx_interval = tx_interval;
        activity_stagger_s = stagger;
        user_activity_times =
            (calculate_activity_start_times D outcome n activity_start_time_s tx_interval
              (some nodes) cores c₂).0;
      }

  unfoldable pub plan_upgraded :
      GenerationConfig → SpawnSchedule → ℕ × ℕ × ℕ → Calibrator → Option Upgrade → Result Plan
  unfolding requested_duration plan_with
  plan_upgraded cfg spawn chain c upgrade = do
    requested ← requested_duration D cfg.duration
    ok (plan_with cfg spawn chain upgrade requested c)

  unfoldable pub plan_chained :
      GenerationConfig → SpawnSchedule → Calibrator → ℕ × ℕ × ℕ → Result Plan
  unfolding plan_if plan_upgraded
  plan_chained cfg spawn c chain = do
    upgrade ← plan_if D shuffle cfg chain.2
    plan_upgraded cfg spawn chain c upgrade

  unfoldable pub plan_spawned : GenerationConfig → Calibrator → SpawnSchedule → Result Plan
  unfolding compute_timing_chain plan_chained
  plan_spawned cfg c spawn = do
    chain ← compute_timing_chain D cfg spawn.last_user_spawn_s
    plan_chained cfg spawn c chain

  unfoldable pub make_plan : GenerationConfig → Calibrator → Result Plan
  unfolding compute_user_spawn_schedule plan_spawned
  make_plan cfg c = do
    spawn ← compute_user_spawn_schedule D cfg.total_agents cfg
    plan_spawned cfg c spawn

  -- The configuration and the timing.
  unfoldable pub generate_config :
      String → GenerationConfig → Calibrator → Result (Members × TimingInfo)
  unfolding make_plan build
  generate_config default_shared_dir cfg c = do p ← make_plan cfg c; build default_shared_dir cfg p

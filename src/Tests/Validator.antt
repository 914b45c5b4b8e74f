-- ===== src/Tests/Validator.antt =====
-- Examples of the laws of the validator: a network before and through a hard fork.
use zano_shadow_sim.Base.{
  ℕ, ◌+◌, ◌<◌, ◌≤◌, ◌≡◌, refl, Bool, true, false, ◌&&◌, ◌||◌, Option, none, some, List, [], ◌∷◌,
  String, length, codes, is_empty, is_some, All, sum, lower, span_digits,
}
use zano_shadow_sim.Base.Dict.{Dict, lookup}
use zano_shadow_sim.Float.Ratio.{ratios}
use zano_shadow_sim.Timing.Duration.{scan}
use zano_shadow_sim.Validator.Integers.{ℤ}
use zano_shadow_sim.Validator.Integers.Laws.{AreExtremes}
use zano_shadow_sim.Validator.Times.{Time, parse_time_to_seconds}
use zano_shadow_sim.Validator.Config.{AgentConfig, Config}
use zano_shadow_sim.Validator.Agents.{AgentType, AgentInfo, is_given, parse_agent}
use zano_shadow_sim.Validator.Upgrade.{collect, analyze_upgrade}
use zano_shadow_sim.Validator.Upgrade.Laws.{stop_times, AreStaggers, analyze_upgrade-window}
use zano_shadow_sim.Validator.HardFork.{agent_cfgs, check_hard_forks}
use zano_shadow_sim.Validator.Report.{general_of, validate}
use zano_shadow_sim.Validator.Report.Counts.{IsCounted, validate-IsCounted}
use zano_shadow_sim.Validator.Report.Validity.{is_valid-validate, FitForForks, FitForForks-of_valid}

abbrev miner_config : AgentConfig ratios
miner_config = record {
  script = "agents.autonomous_miner";
  daemon = some "monerod-hf";
  wallet = some "monero-wallet-rpc";
  start_time = some (Time.text (codes "soon"));
  activity_start_time = none;
  daemon_0_start = none;
  daemon_0_stop = none;
  daemon_1_start = none;
  hashrate = some 100;
  transaction_interval = none;
  out_peers = 0;
  in_peers = 0;
  hard_forks = none;
  phases = [];
}

abbrev seed_config : AgentConfig ratios
seed_config = record miner_config { script = ""; wallet = none; start_time = some (Time.int 0) }

abbrev forked_agents : Dict (Option (AgentConfig ratios))
forked_agents =
    ("miner-001", some miner_config)
    ∷ ("notes", none)
    ∷ ("monero-seed-001", some seed_config)
    ∷ ("monero-seed-002", some seed_config)
    ∷ ("monero-seed-003", some seed_config)
    ∷ ("monero-seed-004", some seed_config)
    ∷ ("monero-seed-005", some seed_config)
    ∷ ("monero-seed-006", some seed_config)
    ∷ []

-- There is no stop time, and the miner's start time is no time.
abbrev forked : Config ratios
forked = record {
  general = some (record {
    stop_time = none;
    bootstrap_end_time = none;
    simulation_seed = some 12345;
    hard_forks = some "1:0,14:1,15:107";
    node_implementations = false;
  });
  agents = some forked_agents;
  network_type = none;
  network_path = none;
  peer_mode = none;
}

validate-IsCounted_example :
    IsCounted ratios (validate ratios (some forked))
    × (length (validate ratios (some forked)).agents ≡ length (agent_cfgs ratios forked_agents))
validate-IsCounted_example = validate-IsCounted ratios forked forked_agents refl

is_valid-validate_example : (validate ratios (some forked)).is_valid ≡ (
    true
    && is_empty (
        check_hard_forks ratios
          (general_of ratios forked.general)
          (agent_cfgs ratios forked_agents)))
is_valid-validate_example = is_valid-validate ratios forked forked_agents refl

forked_is_valid : (validate ratios (some forked)).is_valid ≡ true
unfolding validate parse_agent zano_shadow_sim.Base.Dict.lookup zano_shadow_sim.Base.lower
    parse_time_to_seconds zano_shadow_sim.Timing.Duration.scan zano_shadow_sim.Base.span_digits
    check_hard_forks agent_cfgs
forked_is_valid = refl

forked_has_errors : length (validate ratios (some forked)).errors ≡ 2
unfolding validate parse_agent zano_shadow_sim.Base.Dict.lookup zano_shadow_sim.Base.lower
    parse_time_to_seconds zano_shadow_sim.Timing.Duration.scan zano_shadow_sim.Base.span_digits
    check_hard_forks agent_cfgs ratios
forked_has_errors = refl

FitForForks-of_valid_example :
    FitForForks ratios (general_of ratios forked.general) (agent_cfgs ratios forked_agents)
unfolding is_given
FitForForks-of_valid_example =
    FitForForks-of_valid ratios forked forked_agents refl forked_is_valid refl

-- An agent that stops its first daemon at the time.
abbrev phased : ℕ → AgentInfo
phased stop = record {
  agent_id = "user-001";
  agent_type = AgentType.user;
  daemon = none;
  wallet = none;
  script = "agents.regular_user";
  start_time_s = 0;
  hashrate = none;
  transaction_interval = none;
  activity_start_time_s = none;
  has_phases = true;
  daemon_0 = some "monerod-v1";
  daemon_0_start_s = some 0;
  daemon_0_stop_s = some stop;
  daemon_1 = some "monerod-v2";
  daemon_1_start_s = some (stop + 30);
  phase_gap_s = some (ℤ.pos 30);
  out_peers = none;
  in_peers = none;
}

abbrev phased_agents : List AgentInfo
phased_agents = phased 7230 ∷ phased 7200 ∷ phased 7290 ∷ []

analyze_upgrade-window_example :
    (lo : ℕ) × (hi : ℕ) × (steps : List ℕ) × ((analyze_upgrade ratios phased_agents
        5).upgrade_start_s
      ≡ some lo)
    × AreExtremes lo hi (stop_times phased_agents)
    × AreStaggers ratios lo hi steps (analyze_upgrade ratios phased_agents 5)
unfolding collect
analyze_upgrade-window_example =
    analyze_upgrade-window ratios phased_agents 5 7230 (7200 ∷ 7290 ∷ []) refl

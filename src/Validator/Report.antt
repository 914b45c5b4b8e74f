-- ===== src/Validator/Report.antt =====
-- `validate` of scripts/ai_config/validator.py.
pub mod Counts
pub mod Validity
use zano_shadow_sim.Base.{
  ℕ, zero, suc, ◌+◌, Bool, true, false, not, ◌&&◌, ◌||◌, Option, none, some, List, [], ◌∷◌, ◌++◌,
  map, String, ltb, ◌==◌, if◌then◌else◌, Result, ok, err, length, is_empty, codes,
}
use zano_shadow_sim.Base.Dict.{Dict, insert}
use zano_shadow_sim.Float.{Float}
use zano_shadow_sim.Validator.Integers.{min_of, max_of}
use zano_shadow_sim.Validator.Times.{Time, parse_time_to_seconds}
use zano_shadow_sim.Validator.Config.{AgentConfig, General, Config, no_general, Problem}
use zano_shadow_sim.Validator.Agents.{AgentType, AgentInfo, is_given, parse_agent}
use zano_shadow_sim.Validator.Upgrade.{UpgradeInfo, no_upgrade, collect, analyze_upgrade}
use zano_shadow_sim.Validator.HardFork.{agent_cfgs, check_hard_forks, report_if}

pub record ValidationReport (D : Float) : Type 0 where
  pub is_valid : Bool
  pub errors : List Problem
  pub warnings : List Problem
  pub has_hardfork_schedule : Bool
  pub stop_time_s : ℕ
  pub bootstrap_end_time_s : ℕ
  pub simulation_seed : Option ℕ
  pub network_type : Option String
  pub peer_mode : Option String
  pub total_agents : ℕ
  pub miner_count : ℕ
  pub user_count : ℕ
  pub spy_count : ℕ
  pub relay_count : ℕ
  pub has_distributor : Bool
  pub has_monitor : Bool
  pub total_hashrate : ℕ
  pub hashrate_distribution : Dict ℕ
  pub user_start_time_range : ℕ × ℕ
  pub activity_start_time_range : ℕ × ℕ
  pub spy_connections : Dict (ℕ × ℕ)
  pub upgrade : UpgradeInfo D
  pub agents : List AgentInfo

-- `n or 0`
abbrev pub or_zero : Option ℕ → ℕ
or_zero none = 0
or_zero (some n) = n

-- `x` where it is neither missing nor 0
unfoldable pub nonzero : Option ℕ → Option ℕ
nonzero none = none
nonzero (some n) = if n == 0 then none else some n

abbrev pub range_or : ℕ × ℕ → Option ℕ → Option ℕ → ℕ × ℕ
range_or r (some lo) (some hi) = (lo, hi)
range_or r _ _ = r

unfoldable pub is_user : AgentInfo → Bool
is_user a = elim a.agent_type [ AgentType.user ↦ true | _ ↦ false ]

-- `users` and `phase_agents`, in order
unfoldable pub keep {ℓ} : {A : Type ℓ} → (A → Bool) → List A → List A
keep p [] = []
keep p (x ∷ xs) = if p x then x ∷ keep p xs else keep p xs

module _ (D : Float) where
  abbrev pub new_report : ValidationReport D
  new_report = record {
    is_valid = true;
    errors = [];
    warnings = [];
    has_hardfork_schedule = false;
    stop_time_s = 0;
    bootstrap_end_time_s = 0;
    simulation_seed = none;
    network_type = none;
    peer_mode = none;
    total_agents = 0;
    miner_count = 0;
    user_count = 0;
    spy_count = 0;
    relay_count = 0;
    has_distributor = false;
    has_monitor = false;
    total_hashrate = 0;
    hashrate_distribution = [];
    user_start_time_range = (0, 0);
    activity_start_time_range = (0, 0);
    spy_connections = [];
    upgrade = no_upgrade D;
    agents = [];
  }

  -- The general section's times.
  unfoldable pub read_stop_time : Option (Time D) → ValidationReport D → ValidationReport D
  read_stop_time none r = record r { errors = r.errors ++ Problem.missing_stop_time ∷ [] }
  read_stop_time (some t) r = elim (parse_time_to_seconds D t) [
    | ok n ↦ record r { stop_time_s = n }
    | err e ↦ record r { errors = r.errors ++ Problem.invalid_stop_time ∷ [] }
  ]

  -- `general.get('bootstrap_end_time', '4h')`
  unfoldable pub bootstrap_time : Option (Time D) → Time D
  bootstrap_time none = Time.text (codes "4h")
  bootstrap_time (some t) = t

  unfoldable pub read_bootstrap_end_time : Time D → ValidationReport D → ValidationReport D
  read_bootstrap_end_time t r = elim (parse_time_to_seconds D t) [
    | ok n ↦ record r { bootstrap_end_time_s = n }
    | err e ↦ record r { errors = r.errors ++ Problem.invalid_bootstrap_end_time ∷ [] }
  ]

  -- The counts that an agent's information adds to.
  unfoldable pub count_agent : String → AgentInfo → ValidationReport D → ValidationReport D
  unfolding nonzero
  count_agent agent_id info r = elim info.agent_type [
    | AgentType.miner ↦ elim (nonzero info.hashrate) [
      | none ↦ record r { miner_count = r.miner_count + 1 }
      | some h ↦ record r {
        miner_count = r.miner_count + 1;
        total_hashrate = r.total_hashrate + h;
        hashrate_distribution = insert agent_id h r.hashrate_distribution;
      }
    ]
    | AgentType.user ↦ record r { user_count = r.user_count + 1 }
    | AgentType.spy ↦
        if ltb 0 (or_zero info.out_peers) || ltb 0 (or_zero info.in_peers)
        then record r {
          spy_count = r.spy_count + 1;
          spy_connections =
              insert agent_id (or_zero info.out_peers, or_zero info.in_peers) r.spy_connections;
        }
        else record r { spy_count = r.spy_count + 1 }
    | AgentType.relay ↦ record r { relay_count = r.relay_count + 1 }
    | AgentType.distributor ↦ record r { has_distributor = true }
    | AgentType.monitor ↦ record r { has_monitor = true }
    | AgentType.unknown ↦ r
  ]

  -- The loop over the agents.
  unfoldable pub count_agents :
      Dict (Option (AgentConfig D)) → ValidationReport D → ValidationReport D
  unfolding count_agent
  count_agents [] r = r
  count_agents ((agent_id, none) ∷ rest) r = count_agents rest r
  count_agents ((agent_id, some config) ∷ rest) r =
      let (info, problems) = parse_agent D agent_id config in
      count_agents rest (
        count_agent agent_id info
          (record r { errors = r.errors ++ problems; agents = r.agents ++ info ∷ [] }))

  unfoldable pub with_ranges : ValidationReport D → ValidationReport D
  unfolding keep is_user collect nonzero min_of max_of
  with_ranges r =
      let users = keep is_user r.agents in
      let starts = map (λ u. u.start_time_s) users in
      let activities = collect (λ u. nonzero u.activity_start_time_s) users in
      record r {
        user_start_time_range = range_or r.user_start_time_range (min_of starts) (max_of starts);
        activity_start_time_range =
            range_or r.activity_start_time_range (min_of activities) (max_of activities);
      }

  unfoldable pub with_upgrade : ValidationReport D → ValidationReport D
  unfolding keep
  with_upgrade r =
      let phase_agents = keep (λ a. a.has_phases) r.agents in
      if is_empty phase_agents
      then r
      else record r { upgrade = analyze_upgrade D phase_agents r.total_agents }

  unfoldable pub with_warnings : ValidationReport D → ValidationReport D
  unfolding report_if
  with_warnings r = record r {
    warnings =
        r.warnings
        ++ report_if (ltb 0 r.user_count && not r.has_distributor) Problem.users_without_distributor
        ++ report_if (not (r.total_hashrate == 100) && ltb 0 r.miner_count)
            (Problem.hashrate_not_100 r.total_hashrate);
  }

  -- `network.get('type') or network.get('path', 'default')`
  unfoldable pub network_of : Option String → Option String → Option String
  unfolding is_given
  network_of type none = if is_given type then type else some "default"
  network_of type (some path) = if is_given type then type else some path

  abbrev pub or_dynamic : Option String → Option String
  or_dynamic none = some "Dynamic"
  or_dynamic (some mode) = some mode

  -- `config.get('general', {})`
  abbrev pub general_of : Option (General D) → General D
  general_of none = no_general D
  general_of (some g) = g

  -- The settings that are taken over as they are.
  abbrev pub with_settings :
      Config D → Dict (Option (AgentConfig D)) → ValidationReport D → ValidationReport D
  with_settings config agents r = record r {
    simulation_seed = (general_of config.general).simulation_seed;
    network_type = network_of config.network_type config.network_path;
    peer_mode = or_dynamic config.peer_mode;
    total_agents = length agents;
  }

  abbrev pub with_times : General D → ValidationReport D → ValidationReport D
  with_times general r =
      read_bootstrap_end_time (bootstrap_time general.bootstrap_end_time)
        (read_stop_time general.stop_time r)

  -- What follows the look for the `agents` section.
  unfoldable pub validate_agents :
      Config D → Dict (Option (AgentConfig D)) → ValidationReport D → ValidationReport D
  unfolding read_stop_time bootstrap_time read_bootstrap_end_time count_agents with_ranges
      with_upgrade with_warnings network_of
  validate_agents config agents r0 =
      let general = general_of config.general in
      let r2 = with_settings config agents (with_times general r0) in
      let r3 = with_warnings (with_upgrade (with_ranges (count_agents agents r2))) in
      let problems = check_hard_forks D general (agent_cfgs D agents) in
      record r3 {
        has_hardfork_schedule = is_given general.hard_forks;
        is_valid = r3.is_valid && is_empty problems;
        errors = r3.errors ++ problems;
      }

  -- The report after the look for the `general` section.
  unfoldable pub start_report : Option (General D) → ValidationReport D
  start_report none = record new_report { is_valid = false; errors = Problem.missing_general ∷ [] }
  start_report (some general) = new_report

  -- An empty configuration is `none`.
  unfoldable pub validate : Option (Config D) → ValidationReport D
  unfolding start_report validate_agents
  validate none = record new_report { is_valid = false; errors = Problem.config_empty ∷ [] }
  validate (some config) =
      let r = start_report config.general in
      elim config.agents [
        | none ↦ record r { is_valid = false; errors = r.errors ++ Problem.missing_agents ∷ [] }
        | some agents ↦ validate_agents config agents r
      ]

-- ===== src/Validator/Config.antt =====
-- What scripts/ai_config/validator.py reads of a configuration.
use zano_shadow_sim.Base.{ℕ, Bool, false, Option, none, List, String}
use zano_shadow_sim.Base.Dict.{Dict}
use zano_shadow_sim.Float.{Float}
use zano_shadow_sim.Validator.Times.{Time}

module _ (D : Float) where
  -- One agent's section. `phases` has its entries whose key is `daemon_` and digits, in order.
  pub record AgentConfig : Type 0 where
    pub script : String
    pub daemon : Option String
    pub wallet : Option String
    pub start_time : Option (Time D)
    pub activity_start_time : Option (Time D)
    pub daemon_0_start : Option (Time D)
    pub daemon_0_stop : Option (Time D)
    pub daemon_1_start : Option (Time D)
    pub hashrate : Option ℕ
    pub transaction_interval : Option ℕ
    pub out_peers : ℕ
    pub in_peers : ℕ
    pub hard_forks : Option String  -- `daemon_options['fakechain-hard-forks']`
    pub phases : Dict String

  pub record General : Type 0 where
    pub stop_time : Option (Time D)
    pub bootstrap_end_time : Option (Time D)
    pub simulation_seed : Option ℕ
    pub hard_forks : Option String  -- `daemon_defaults['fakechain-hard-forks']`
    pub node_implementations : Bool

  -- An agent whose section is no dict is listed without one.
  pub record Config : Type 0 where
    pub general : Option General
    pub agents : Option (Dict (Option AgentConfig))
    pub network_type : Option String
    pub network_path : Option String
    pub peer_mode : Option String

  -- `{}`
  abbrev pub no_general : General
  no_general = record {
    stop_time = none;
    bootstrap_end_time = none;
    simulation_seed = none;
    hard_forks = none;
    node_implementations = false;
  }

-- What is reported of a configuration, without the texts.
pub data Problem : Type 0 where
  config_empty missing_general missing_agents missing_stop_time invalid_stop_time : Problem
  invalid_bootstrap_end_time : Problem
  invalid_time : (agent_id field : String) → Problem
  no_default_schedule : Problem
  stock_daemon : (agent_id : String) → Problem
  phases_with_schedule : (agent_id : String) → Problem
  missing_seeds : List String → Problem
  mixed_implementations : Problem
  malformed_schedule : (label : String) → Problem
  users_without_distributor : Problem
  hashrate_not_100 : ℕ → Problem

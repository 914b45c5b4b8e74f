-- ===== src/Validator/Agents.antt =====
-- `_parse_agent` of scripts/ai_config/validator.py.
use zano_shadow_sim.Base.{
  ℕ, Bool, true, false, not, ◌&&◌, ◌||◌, Option, none, some, List, [], ◌∷◌, ◌++◌, String, str_eq,
  leb, if◌then◌else◌, ok, err, codes, lower, is_infix, is_some,
}
use zano_shadow_sim.Base.Dict.{lookup}
use zano_shadow_sim.Float.{Float}
use zano_shadow_sim.Validator.Integers.{ℤ, difference}
use zano_shadow_sim.Validator.Times.{Time, parse_time_to_seconds}
use zano_shadow_sim.Validator.Config.{AgentConfig, Problem}

pub data AgentType : Type 0 where
  unknown distributor monitor miner spy user relay : AgentType

pub record AgentInfo : Type 0 where
  pub agent_id : String
  pub agent_type : AgentType
  pub daemon : Option String
  pub wallet : Option String
  pub script : String
  pub start_time_s : ℕ
  pub hashrate : Option ℕ
  pub transaction_interval : Option ℕ
  pub activity_start_time_s : Option ℕ
  pub has_phases : Bool
  pub daemon_0 : Option String
  pub daemon_0_start_s : Option ℕ
  pub daemon_0_stop_s : Option ℕ
  pub daemon_1 : Option String
  pub daemon_1_start_s : Option ℕ
  pub phase_gap_s : Option ℤ
  pub out_peers : Option ℕ
  pub in_peers : Option ℕ

-- `a in b`
unfoldable pub within : String → List ℕ → Bool
unfolding is_infix
within a b = is_infix (codes a) b

-- `bool(s)`
unfoldable pub is_given : Option String → Bool
is_given none = false
is_given (some s) = not (str_eq s "")

unfoldable pub is_unknown : AgentType → Bool
is_unknown AgentType.unknown = true
is_unknown _ = false

module _ (D : Float) where
  -- The type by the script or, where that says nothing, by the id, with the peer counts that are kept.
  unfoldable pub type_by_name : String → AgentConfig D → AgentType × Option ℕ × Option ℕ
  unfolding within
  type_by_name agent_id config =
      let script = codes config.script in
      let name = lower (codes agent_id) in
      let spy : AgentType × Option ℕ × Option ℕ =
        (AgentType.spy, some config.out_peers, some config.in_peers) in
      let regular : AgentType × Option ℕ × Option ℕ =
        if leb 100 config.out_peers || leb 100 config.in_peers
        then spy
        else (AgentType.user, none, none) in
      if within "miner_distributor" script
      then (AgentType.distributor, none, none)
      else if within "simulation_monitor" script
      then (AgentType.monitor, none, none)
      else if within "autonomous_miner" script
      then (AgentType.miner, none, none)
      else if within "regular_user" script
      then regular
      else if within "spy" name
      then spy
      else if within "miner" name && not (within "distributor" name)
      then (AgentType.miner, none, none)
      else if within "user" name
      then (AgentType.user, none, none)
      else (AgentType.unknown, none, none)

  -- An agent with a daemon and neither wallet nor script is a relay.
  unfoldable pub agent_type_of : String → AgentConfig D → AgentType → AgentType
  unfolding within is_given is_unknown
  agent_type_of agent_id config by_name =
      let has_daemon = is_given config.daemon || is_given (lookup "daemon_0" config.phases) in
      if has_daemon && not (is_given config.wallet) && str_eq config.script ""
      then AgentType.relay
      else if within "relay" (lower (codes agent_id)) && is_unknown by_name
      then AgentType.relay
      else by_name

  -- A time that is there: its seconds, or an error on the field.
  unfoldable pub read_time : String → String → Option (Time D) → Option ℕ × List Problem
  read_time agent_id field none = (none, [])
  read_time agent_id field (some t) = elim (parse_time_to_seconds D t) [
    | ok n ↦ (some n, [])
    | err e ↦ (none, Problem.invalid_time agent_id field ∷ [])
  ]

  -- `daemon_1_start_s - daemon_0_stop_s`, where both are known
  unfoldable pub phase_gap : Option ℕ → Option ℕ → Option ℤ
  unfolding difference
  phase_gap (some stop) (some start) = some (difference start stop)
  phase_gap _ _ = none

  abbrev start_time_of : Option ℕ → ℕ
  start_time_of none = 0
  start_time_of (some n) = n

  -- The agent's information and the errors on its times; the times of phases are read only where
  -- there is a `daemon_0`.
  unfoldable pub parse_agent : String → AgentConfig D → AgentInfo × List Problem
  unfolding type_by_name agent_type_of read_time phase_gap
  parse_agent agent_id config =
      let (by_name, out_peers, in_peers) = type_by_name agent_id config in
      let (start, e) = read_time agent_id "start_time" config.start_time in
      let (activity, e_activity) =
        read_time agent_id "activity_start_time" config.activity_start_time in
      let (start_0, e_0) = read_time agent_id "daemon_0_start" config.daemon_0_start in
      let (stop_0, e_1) = read_time agent_id "daemon_0_stop" config.daemon_0_stop in
      let (start_1, e_2) = read_time agent_id "daemon_1_start" config.daemon_1_start in
      let info : AgentInfo = record {
        agent_id = agent_id;
        agent_type = agent_type_of agent_id config by_name;
        daemon = config.daemon;
        wallet = config.wallet;
        script = config.script;
        start_time_s = start_time_of start;
        hashrate = config.hashrate;
        transaction_interval = config.transaction_interval;
        activity_start_time_s = activity;
        has_phases = false;
        daemon_0 = none;
        daemon_0_start_s = none;
        daemon_0_stop_s = none;
        daemon_1 = none;
        daemon_1_start_s = none;
        phase_gap_s = none;
        out_peers = out_peers;
        in_peers = in_peers;
      } in
      let phased : AgentInfo = record info {
        has_phases = true;
        daemon_0 = lookup "daemon_0" config.phases;
        daemon_1 = lookup "daemon_1" config.phases;
        daemon_0_start_s = start_0;
        daemon_0_stop_s = stop_0;
        daemon_1_start_s = start_1;
        phase_gap_s = phase_gap stop_0 start_1;
      } in
      if is_some (lookup "daemon_0" config.phases)
      then (phased, e ++ e_activity ++ e_0 ++ e_1 ++ e_2)
      else (info, e ++ e_activity)

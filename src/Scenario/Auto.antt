-- ===== src/Scenario/Auto.antt =====
-- `_resolve_auto_agent_values` and `_resolve_timing` of scripts/scenario_parser.py.
pub mod Laws
use zano_shadow_sim.Base.{
  ℕ, ◌+◌, max, Bool, true, false, not, ◌&&◌, ◌||◌, Option, none, some, List, [], ◌∷◌, ◌++◌, String,
  str_eq, ltb, ◌==◌, if◌then◌else◌, codes, decimal, contains, is_infix, length, Result, ok, err,
  ◌>>=◌,
}
use zano_shadow_sim.Base.Dict.{Dict, lookup}
use zano_shadow_sim.Float.{Float}
use zano_shadow_sim.Timing.{
  min_bootstrap_end_time_s, funding_period_s, default_daemon_restart_gap_s,
  default_wallet_restart_gap_s,
}
use zano_shadow_sim.Timing.Duration.{parse_duration}
use zano_shadow_sim.Calibrate.{
  Calibration, Calibrator, compute_safe_interval, compute_safe_poll_interval,
  calculate_activity_start_times,
}

-- A time or an interval: the text "auto", an int, or another text.
pub data Setting : Type 0 where
  auto : Setting
  seconds : ℕ → Setting
  duration : List ℕ → Setting

-- The keys of an agent that are resolved, and those they are resolved from.
pub record AgentSettings : Type 0 where
  pub script : String
  pub start_time : Option Setting
  pub transaction_interval : Option Setting
  pub activity_start_time : Option Setting
  pub poll_interval : Option Setting
  pub wait_time : Option Setting
  pub daemon_0_start : Option Setting
  pub daemon_0_stop : Option Setting
  pub daemon_1_start : Option Setting
  pub wallet_0_start : Option Setting
  pub wallet_0_stop : Option Setting
  pub wallet_1_start : Option Setting

-- `value == 'auto'`
unfoldable pub is_auto : Option Setting → Bool
is_auto (some Setting.auto) = true
is_auto _ = false

unfoldable pub is_auto_user : AgentSettings → Bool
unfolding is_auto
is_auto_user a = is_auto a.activity_start_time && is_infix (codes "regular_user") (codes a.script)

-- What the first loop gathers: the users, the interval of the last that gives one, and whether one
-- leaves it open.
pub record Gathered : Type 0 where
  pub users : List String
  pub interval : ℕ
  pub has_auto : Bool

abbrev pub nothing_gathered : Gathered
nothing_gathered = record { users = []; interval = 60; has_auto = false }

-- `s + "s"`
unfoldable pub in_seconds : ℕ → List ℕ
in_seconds n = decimal n ++ b's' ∷ []

module _ (D : Float) where
  unfoldable pub with_interval : Option Setting → Gathered → Result Gathered
  with_interval none g = ok (record g { interval = 60 })
  with_interval (some Setting.auto) g = ok (record g { has_auto = true })
  with_interval (some (Setting.seconds n)) g = ok (record g { interval = n })
  with_interval (some (Setting.duration s)) g = do
    n ← parse_duration D s
    ok (record g { interval = n })

  unfoldable pub gather : Dict AgentSettings → Gathered → Result Gathered
  unfolding with_interval is_auto_user
  gather [] g = ok g
  gather ((agent_id, a) ∷ agents) g =
      let user = do
        g' ← with_interval a.transaction_interval (record g { users = g.users ++ agent_id ∷ [] })
        gather agents g'
      in if is_auto_user a then user else gather agents g

  -- `agents[uid]['transaction_interval'] = safe_interval`, for one agent
  unfoldable pub set_interval : String → ℕ → Dict AgentSettings → Dict AgentSettings
  set_interval uid n [] = []
  set_interval uid n ((k, a) ∷ agents) =
      let rest = set_interval uid n agents in
      if str_eq uid k
      then (k, record a { transaction_interval = some (Setting.seconds n) }) ∷ agents
      else (k, a) ∷ rest

  unfoldable pub set_intervals : List String → ℕ → Dict AgentSettings → Dict AgentSettings
  unfolding set_interval
  set_intervals [] n agents = agents
  set_intervals (uid ∷ uids) n agents = set_intervals uids n (set_interval uid n agents)

  -- The interval and the agents after the calibrated minimum has been looked at.
  unfoldable pub bump : Bool → ℕ → Gathered → Dict AgentSettings → ℕ × Dict AgentSettings
  unfolding set_intervals
  bump respect safe_interval g agents =
      let bumped = ltb g.interval safe_interval in
      if g.has_auto || (bumped && respect)
      then (safe_interval, set_intervals g.users safe_interval agents)
      else (g.interval, agents)

  -- `dict(zip(keys, values))`
  unfoldable pub zip : List String → List ℕ → Dict ℕ
  zip [] values = []
  zip (k ∷ keys) [] = []
  zip (k ∷ keys) (v ∷ values) = (k, v) ∷ zip keys values

  -- A stop time in seconds, to start again from.
  unfoldable pub stop_seconds : Option Setting → Result ℕ
  stop_seconds none = parse_duration D (codes "0s")
  stop_seconds (some Setting.auto) = parse_duration D (codes "auto")
  stop_seconds (some (Setting.seconds n)) = ok n
  stop_seconds (some (Setting.duration s)) = parse_duration D s

  -- `agent_config.get('start_time', '0s')`
  unfoldable pub start_or_zero : Option Setting → Setting
  start_or_zero none = Setting.duration (codes "0s")
  start_or_zero (some s) = s

  unfoldable pub restart : Option Setting → Option Setting → ℕ → Result (Option Setting)
  unfolding is_auto stop_seconds in_seconds
  restart start stop gap =
      let resolved = do
        stop_s ← stop_seconds stop
        ok (some (Setting.duration (in_seconds (stop_s + gap))))
      in if is_auto start then resolved else ok start

  -- The value in place of "auto".
  unfoldable pub or_auto : Option Setting → Setting → Option Setting
  unfolding is_auto
  or_auto value resolved = if is_auto value then some resolved else value

  abbrev pub seconds_or : Option ℕ → ℕ → Setting
  seconds_or (some n) m = Setting.seconds n
  seconds_or none m = Setting.seconds m

  -- The agent with its values, of which two are computed before.
  abbrev pub with_values :
      Dict ℕ → ℕ → ℕ → ℕ → String → AgentSettings → Option Setting → Option Setting → AgentSettings
  with_values activity_times activity_start_s md_start_s safe_poll agent_id a daemon_1 wallet_1 =
      record a {
        poll_interval = or_auto a.poll_interval (Setting.seconds safe_poll);
        activity_start_time =
            or_auto a.activity_start_time
              (seconds_or (lookup agent_id activity_times) activity_start_s);
        wait_time = or_auto a.wait_time (Setting.seconds md_start_s);
        daemon_0_start = or_auto a.daemon_0_start (start_or_zero a.start_time);
        daemon_1_start = daemon_1;
        wallet_0_start = or_auto a.wallet_0_start (start_or_zero a.start_time);
        wallet_1_start = wallet_1;
      }

  unfoldable pub resolve_agent : Dict ℕ → ℕ → ℕ → ℕ → String → AgentSettings → Result AgentSettings
  unfolding restart or_auto start_or_zero
  resolve_agent activity_times activity_start_s md_start_s safe_poll agent_id a = do
    daemon_1 ← restart a.daemon_1_start a.daemon_0_stop default_daemon_restart_gap_s
    wallet_1 ← restart a.wallet_1_start a.wallet_0_stop default_wallet_restart_gap_s
    ok (
        with_values activity_times activity_start_s md_start_s safe_poll agent_id a daemon_1
          wallet_1)

  unfoldable pub resolve_agents :
      Dict ℕ → ℕ → ℕ → ℕ → Dict AgentSettings → Result (Dict AgentSettings)
  unfolding resolve_agent
  resolve_agents times activity_start_s md_start_s safe_poll [] = ok []
  resolve_agents times activity_start_s md_start_s safe_poll ((agent_id, a) ∷ agents) = do
    a' ← resolve_agent times activity_start_s md_start_s safe_poll agent_id a
    rest ← resolve_agents times activity_start_s md_start_s safe_poll agents
    ok ((agent_id, a') ∷ rest)

  -- The whole function, with the outcome that a calibration would have, the number of cores, and the
  -- calibrator's state. What it prints, and the estimate it prints, are left out.
  module _ (outcome : Option Calibration) (cores : ℕ) where
    -- The interval in force, the agents and the calibrator after the check of the interval.
    unfoldable pub safe_agents :
        Bool
        → ℕ
        → Gathered
        → Dict AgentSettings
        → Calibrator
        → (ℕ × Dict AgentSettings) × Calibrator
    unfolding bump
    safe_agents respect total_nodes g agents c =
        let (safe_interval, c') =
          compute_safe_interval D outcome (length g.users) g.interval (some total_nodes) cores c in
        if ltb 0 (length g.users)
        then (bump respect safe_interval g agents, c')
        else ((g.interval, agents), c)

    unfoldable pub resolve_auto_agent_values :
        Bool → ℕ → ℕ → ℕ → Dict AgentSettings → Calibrator → Result (Dict AgentSettings)
    unfolding gather safe_agents zip resolve_agents
    resolve_auto_agent_values respect total_nodes activity_start_s md_start_s agents c = do
      g ← gather agents nothing_gathered
      let ((interval, agents'), c') = safe_agents respect total_nodes g agents c in
          let times =
            (calculate_activity_start_times D outcome (length g.users) activity_start_s interval
              (some total_nodes) cores c').0 in
          resolve_agents (zip g.users times) activity_start_s md_start_s
            (compute_safe_poll_interval D (some total_nodes) cores) agents'

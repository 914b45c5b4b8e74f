-- ===== src/Scenario/Expand.antt =====
-- `_expand_agent_groups` and `_add_singleton_agents` of scripts/scenario_parser.py.
pub mod Laws
pub mod Phases
use mathlib.Core.Option
use zano_shadow_sim.Base.{
  ℕ, zero, suc, ◌+◌, Bool, true, false, not, ◌&&◌, ◌||◌, Option, none, some, List, [], ◌∷◌, ◌++◌,
  map, String, str_eq, ltb, ◌==◌, if◌then◌else◌, is_some, length, get_elem?, range_from, contains,
  codes, decimal, value, starts_with, is_infix, text_of, Result, ok, err, ◌>>=◌,
}
use zano_shadow_sim.Base.Dict.{Dict, lookup, insert}
use zano_shadow_sim.Float.{Float}
use zano_shadow_sim.Timing.{default_upgrade_stagger_s}
use zano_shadow_sim.Timing.Duration.{parse_duration}
use zano_shadow_sim.Calibrate.{Calibration, Calibrator, compute_stagger}
use zano_shadow_sim.Shared.Json.{Json, Jsons, Members, get, put, to_list}
use zano_shadow_sim.Scenario.{IdRange, agent_ids, batched, linear}
use zano_shadow_sim.Scenario.Staggers.{
  Spread, computed, number_of, replicate_value, parse_stagger_value, expand_values,
}
use zano_shadow_sim.Scenario.Fields.{
  AgentGroup, without_suffix, stagger_key, stagger_fields, base_fields, runs_script, has,
  is_daemon_only, default_stagger, seconds_text, default_start_stagger, is_auto_text, Offsets,
  is_phase, offset_of, is_stop, advance, unstaggered, tx_interval_of, default_activity_stagger,
  with_defaults, override_start, with_spawn_start, expand_field, expand_fields,
}

abbrev pub string_time_fields : List String
string_time_fields =
    "start_time" ∷ "daemon_0_start" ∷ "daemon_0_stop" ∷ "daemon_1_start" ∷ "daemon_1_stop"
    ∷ "wallet_0_start" ∷ "wallet_0_stop" ∷ "wallet_1_start" ∷ "wallet_1_stop" ∷ []

abbrev pub u32_time_fields : List String
u32_time_fields =
    "transaction_interval" ∷ "activity_start_time" ∷ "wait_time" ∷ "poll_interval" ∷ []

unfoldable pub is_script : String → Option Json → Bool
is_script name (some (Json.text s)) = str_eq s name
is_script name _ = false

-- The agents so far, their start times, the offsets and the calibrator.
pub record Expanded : Type 0 where
  pub agents : Dict Members
  pub starts : List ℕ
  pub offsets : Offsets
  pub calibrator : Calibrator

module _ (D : Float) (randint : ℕ → ℕ → ℕ → ℕ) (outcome : Option Calibration) (cores : ℕ) where
  -- A duration of a field that has whole seconds.
  unfoldable pub convert_duration : String → Json → Result Json
  unfolding number_of contains
  convert_duration key (Json.text s) =
      let parsed = do n ← parse_duration D (codes s); ok (number_of n)
      in if contains key u32_time_fields && not (str_eq s "auto") then parsed else ok (Json.text s)
  convert_duration key v = ok v

  -- A value in the form that its field has in the configuration.
  unfoldable pub convert : String → Json → Result Json
  unfolding convert_duration seconds_text contains
  convert key (Json.number n) =
      ok (if contains key string_time_fields then seconds_text (value (codes n)) else Json.number n)
  convert key (Json.boolean b) = ok (
      if contains key string_time_fields then seconds_text (if b then 1 else 0) else Json.boolean b)
  convert key v = convert_duration key v

  -- The `i`-th agent's fields.
  unfoldable pub agent_config : ℕ → Dict (List Json) → Result Members
  unfolding convert
  agent_config i [] = ok Members.empty
  agent_config i ((key, values) ∷ fields) = elim (get_elem? values i) [
    | none ↦ err "IndexError"
    | some v ↦ do
      now ← convert key v
      later ← agent_config i fields
      ok (Members.member key now later)
  ]

  unfoldable pub start_seconds : Json → Result ℕ
  start_seconds (Json.text s) = parse_duration D (codes s)
  start_seconds (Json.number n) = ok (value (codes n))
  start_seconds _ = err "TypeError"

  -- Whether an agent that starts within the first hour takes part in the bootstrap.
  unfoldable pub takes_part : Members → Bool
  unfolding is_auto_text is_script get
  takes_part agent =
      is_auto_text (get "activity_start_time" agent)
      || is_script "agents.autonomous_miner" (get "script" agent)
      || ((is_some (get "daemon" agent) || is_some (get "daemon_0" agent))
          && (not (is_some (get "wallet" agent)) && not (is_some (get "script" agent))))

  -- The start times after an agent.
  unfoldable pub track_start : Members → List ℕ → Result (List ℕ)
  unfolding start_seconds takes_part get
  track_start agent starts = elim (get "start_time" agent) [
    | none ↦ ok starts
    | some st ↦ do
      start ← start_seconds st
      ok (if ltb start 3600 && takes_part agent then starts ++ start ∷ [] else starts)
  ]

  -- The agents of a group from the `i`-th on.
  unfoldable pub add_agents :
      Dict (List Json) → List (List ℕ) → ℕ → Dict Members × List ℕ → Result (Dict Members × List ℕ)
  unfolding agent_config track_start insert text_of
  add_agents fields [] i found = ok found
  add_agents fields (agent_id ∷ agent_ids) i found = do
    agent ← agent_config i fields
    starts ← track_start agent found.1
    add_agents fields agent_ids (i + 1) (insert (text_of agent_id) agent found.0, starts)

  unfoldable pub expand_group : ℕ → Option ℕ → AgentGroup → Expanded → Result Expanded
  unfolding with_defaults stagger_fields base_fields expand_fields add_agents runs_script agent_ids
  expand_group total_nodes start g e =
      let base = base_fields g.properties in
      do
        s ←
            with_defaults D randint outcome cores g total_nodes base (stagger_fields g.properties)
              e.calibrator
        values ←
            expand_fields D randint outcome cores (runs_script "regular_user" g.properties) start
              g.count s.0 base e.offsets
        found ← add_agents values.0 (agent_ids g.range) 0 (e.agents, e.starts)
        ok (record { agents = found.0; starts = found.1; offsets = values.1; calibrator = s.1 })

  unfoldable pub expand_groups : ℕ → Option ℕ → List AgentGroup → Expanded → Result Expanded
  unfolding expand_group
  expand_groups total_nodes start [] e = ok e
  expand_groups total_nodes start (g ∷ groups) e = do
    e' ← expand_group total_nodes start g e
    expand_groups total_nodes start groups e'

  unfoldable pub expand_agent_groups : ℕ → Option ℕ → List AgentGroup → Calibrator → Result Expanded
  unfolding expand_groups
  expand_agent_groups total_nodes start groups c = expand_groups total_nodes start groups (record {
    agents = [];
    starts = [];
    offsets = record { daemon = 0; wallet = 0 };
    calibrator = c;
  })

  -- A singleton's fields, without staggers.
  unfoldable pub singleton_config : Members → Result Members
  unfolding stagger_key convert_duration
  singleton_config Members.empty = ok Members.empty
  singleton_config (Members.member key v props) = do
    now ← convert_duration key v
    later ← singleton_config props
    ok (elim (stagger_key key) [ none ↦ Members.member key now later | some _ ↦ later ])

  unfoldable pub add_singleton_agents : Dict Members → Dict Members → Result (Dict Members)
  unfolding singleton_config insert
  add_singleton_agents [] agents = ok agents
  add_singleton_agents ((agent_id, props) ∷ singletons) agents = do
    agent ← singleton_config props
    add_singleton_agents singletons (insert agent_id agent agents)

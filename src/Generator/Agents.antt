-- ===== src/Generator/Agents.antt =====
-- scripts/config_generation/agent_emit.py: the entries of one agent. Values are those of YAML.
pub mod Laws
use zano_shadow_sim.Base.{ℕ, ◌+◌, true, List, [], ◌∷◌, ◌++◌, String, codes, decimal, text_of}
use zano_shadow_sim.Timing.Duration.{format_time_offset}
use zano_shadow_sim.Shared.Json.{Json, Members}
use zano_shadow_sim.Scenario.{id_format}

-- `f"{name}-{i+1:03}"`
unfoldable pub numbered : String → ℕ → String
unfolding text_of
numbered name i = text_of (codes name ++ b'-' ∷ id_format 3 (i + 1))

-- An int.
unfoldable pub int_value : ℕ → Json
unfolding text_of
int_value n = Json.number (text_of (decimal n))

-- `format_time_offset(seconds)`
unfoldable pub time_text : ℕ → Json
unfolding format_time_offset text_of
time_text seconds = Json.text (text_of (format_time_offset seconds true))

-- An `OrderedDict` of pairs.
abbrev pub fields : List (String × Json) → Members
fields [] = Members.empty
fields ((k, v) ∷ entries) = Members.member k v (fields entries)

unfoldable pub generate_miner_agent : ℕ → ℕ → String → Members
generate_miner_agent hashrate start_offset_s daemon_binary = fields (
    ("daemon", Json.text daemon_binary)
    ∷ ("wallet", Json.text "monero-wallet-rpc")
    ∷ ("script", Json.text "agents.autonomous_miner")
    ∷ ("start_time", time_text start_offset_s)
    ∷ ("hashrate", int_value hashrate)
    ∷ ("can_receive_distributions", Json.boolean true)
    ∷ [])

-- The fields of the two phases.
unfoldable pub phase_fields : ℕ → String → String → ℕ → ℕ → List (String × Json)
phase_fields start_offset_s daemon_v1 daemon_v2 phase0_stop_s phase1_start_s =
    ("daemon_0", Json.text daemon_v1)
    ∷ ("daemon_0_start", time_text start_offset_s)
    ∷ ("daemon_0_stop", time_text phase0_stop_s)
    ∷ ("daemon_1", Json.text daemon_v2)
    ∷ ("daemon_1_start", time_text phase1_start_s)
    ∷ []

unfoldable pub generate_miner_agent_phased : ℕ → ℕ → String → String → ℕ → ℕ → Members
unfolding phase_fields
generate_miner_agent_phased hashrate start_offset_s daemon_v1 daemon_v2 phase0_stop_s
      phase1_start_s =
    fields (
      ("wallet", Json.text "monero-wallet-rpc")
      ∷ ("script", Json.text "agents.autonomous_miner")
      ∷ ("start_time", time_text start_offset_s)
      ∷ ("hashrate", int_value hashrate)
      ∷ ("can_receive_distributions", Json.boolean true)
      ∷ phase_fields start_offset_s daemon_v1 daemon_v2 phase0_stop_s phase1_start_s)

unfoldable pub generate_user_agent : ℕ → ℕ → ℕ → String → String → Members
generate_user_agent start_offset_s tx_interval activity_start_time daemon_binary
      tx_send_probability =
    fields (
      ("daemon", Json.text daemon_binary)
      ∷ ("wallet", Json.text "monero-wallet-rpc")
      ∷ ("script", Json.text "agents.regular_user")
      ∷ ("start_time", time_text start_offset_s)
      ∷ ("transaction_interval", int_value tx_interval)
      ∷ ("activity_start_time", int_value activity_start_time)
      ∷ ("tx_send_probability", Json.number tx_send_probability)
      ∷ ("can_receive_distributions", Json.boolean true)
      ∷ [])

unfoldable pub generate_user_agent_phased : ℕ → ℕ → ℕ → String → String → ℕ → ℕ → String → Members
unfolding phase_fields
generate_user_agent_phased start_offset_s tx_interval activity_start_time daemon_v1 daemon_v2
      phase0_stop_s phase1_start_s tx_send_probability =
    fields (
      ("wallet", Json.text "monero-wallet-rpc")
      ∷ ("script", Json.text "agents.regular_user")
      ∷ ("start_time", time_text start_offset_s)
      ∷ ("transaction_interval", int_value tx_interval)
      ∷ ("activity_start_time", int_value activity_start_time)
      ∷ ("tx_send_probability", Json.number tx_send_probability)
      ∷ ("can_receive_distributions", Json.boolean true)
      ∷ phase_fields start_offset_s daemon_v1 daemon_v2 phase0_stop_s phase1_start_s)

unfoldable pub generate_relay_agent : ℕ → String → Members
generate_relay_agent start_offset_s daemon_binary =
    fields (("daemon", Json.text daemon_binary) ∷ ("start_time", time_text start_offset_s) ∷ [])

unfoldable pub generate_relay_agent_phased : ℕ → String → String → ℕ → ℕ → Members
unfolding phase_fields
generate_relay_agent_phased start_offset_s daemon_v1 daemon_v2 phase0_stop_s phase1_start_s =
    fields (
      ("start_time", time_text start_offset_s)
      ∷ phase_fields start_offset_s daemon_v1 daemon_v2 phase0_stop_s phase1_start_s)

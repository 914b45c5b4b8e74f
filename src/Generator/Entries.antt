-- ===== src/Generator/Entries.antt =====
-- The agents in `generate_config` of scripts/generate_config.py.

use zano_shadow_sim.Base.{
  ℕ, ◌+◌, ◌*◌, true, false, Option, none, some, List, [], ◌∷◌, String, get_elem?, Result, ok, ◌>>=◌,
}
use zano_shadow_sim.Base.Dict.{Dict, insert}
use zano_shadow_sim.Shared.Json.{Json, Members}
use zano_shadow_sim.Generator.{GenerationConfig}
use zano_shadow_sim.Generator.Agents.{
  numbered, int_value, fields, generate_miner_agent, generate_miner_agent_phased,
  generate_user_agent, generate_user_agent_phased, generate_relay_agent,
  generate_relay_agent_phased,
}
use zano_shadow_sim.Generator.Upgrade.{phase_times, Upgrade}

abbrev pub Agents : Type 0
Agents = Dict Members

-- The entry of an agent, plain or in phases.
unfoldable pub emit :
    Option Upgrade → String → Members → (String → String → ℕ → ℕ → Members) → Agents → Result Agents
unfolding phase_times insert
emit none agent_id plain phased agents = ok (insert agent_id plain agents)
emit (some u) agent_id plain phased agents = do
  times ← phase_times agent_id u.phases
  ok (insert agent_id (phased u.phases.binary_v1 u.phases.binary_v2 times.0 times.1) agents)

module _ (upgrade : Option Upgrade) where
  -- The miners from the `i`-th on.
  unfoldable pub add_miners : String → ℕ → List (ℕ × ℕ) → Agents → Result Agents
  unfolding emit
  add_miners daemon_binary i [] agents = ok agents
  add_miners daemon_binary i ((hashrate, start_offset_s) ∷ miners) agents = do
    more ←
        emit upgrade (numbered "miner" i)
          (generate_miner_agent hashrate start_offset_s daemon_binary)
          (generate_miner_agent_phased hashrate start_offset_s) agents
    add_miners daemon_binary (i + 1) miners more

  -- One user: `user_activity_times[user_index]` if there is one.
  unfoldable pub add_user : GenerationConfig → ℕ → ℕ → List ℕ → ℕ × ℕ → Agents → Result Agents
  unfolding emit
  add_user cfg tx_interval activity_start_time_s activity_times (user_index, start_time_s) agents =
      let activity : ℕ = elim (get_elem? activity_times user_index) [
        | none ↦ activity_start_time_s
        | some t ↦ t
      ] in
      emit upgrade (numbered "user" user_index)
        (generate_user_agent start_time_s tx_interval activity cfg.daemon_binary
          cfg.tx_send_probability)
        (λ v1 v2 stop start.
          generate_user_agent_phased start_time_s tx_interval activity v1 v2 stop start
            cfg.tx_send_probability)
        agents

  unfoldable pub add_users :
      GenerationConfig → ℕ → ℕ → List ℕ → List (ℕ × ℕ) → Agents → Result Agents
  unfolding add_user
  add_users cfg tx_interval activity_start_time_s activity_times [] agents = ok agents
  add_users cfg tx_interval activity_start_time_s activity_times (user ∷ users) agents = do
    more ← add_user cfg tx_interval activity_start_time_s activity_times user agents
    add_users cfg tx_interval activity_start_time_s activity_times users more

  unfoldable pub add_relays : GenerationConfig → List ℕ → Agents → Result Agents
  unfolding emit
  add_relays cfg [] agents = ok agents
  add_relays cfg (i ∷ indices) agents =
      let start = cfg.relay_nodes.spawn_start_s + i * cfg.relay_nodes.stagger_s in
      do
        more ←
            emit upgrade (numbered "relay" i) (generate_relay_agent start cfg.daemon_binary)
              (generate_relay_agent_phased start) agents
        add_relays cfg indices more

-- The seed hosts of the mode "custom".
unfoldable pub add_seeds : String → List ℕ → Agents → Agents
unfolding insert
add_seeds binary [] agents = agents
add_seeds binary (i ∷ indices) agents =
    add_seeds binary indices
      (insert (numbered "monero-seed" i) (generate_relay_agent 0 binary) agents)

unfoldable pub seed_binary : GenerationConfig → String
seed_binary cfg = elim cfg.upgrade [ none ↦ cfg.daemon_binary | some spec ↦ spec.binary_v1 ]

unfoldable pub distributor_agent : GenerationConfig → ℕ → Members
distributor_agent cfg md_start_time_s = fields (
    ("script", Json.text "agents.miner_distributor")
    ∷ ("wait_time", int_value md_start_time_s)
    ∷ ("max_transaction_amount", Json.text "2.0")
    ∷ ("min_transaction_amount", Json.text "0.5")
    ∷ ("md_n_recipients", int_value cfg.miner_distributor.n_recipients)
    ∷ ("md_out_per_tx", int_value cfg.miner_distributor.out_per_tx)
    ∷ ("md_output_amount", Json.number cfg.miner_distributor.output_amount)
    ∷ ("md_funding_cycle_interval", Json.text cfg.miner_distributor.funding_cycle_interval)
    ∷ [])

abbrev pub simulation_monitor : Members
simulation_monitor = fields (
    ("script", Json.text "agents.simulation_monitor")
    ∷ ("poll_interval", Json.number "300")
    ∷ ("detailed_logging", Json.boolean false)
    ∷ ("enable_alerts", Json.boolean true)
    ∷ ("status_file", Json.text "monerosim_monitor.log")
    ∷ [])

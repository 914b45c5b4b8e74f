-- ===== src/Generator/Upgrade.antt =====
-- The upgrade in `generate_config` of scripts/generate_config.py.

use zano_shadow_sim.Base.{
  ℕ, ◌+◌, max, Option, none, some, List, [], ◌∷◌, ◌++◌, map, String, length, range_from, Result, ok,
  err, ◌>>=◌,
}
use zano_shadow_sim.Base.Dict.{Dict, lookup}
use zano_shadow_sim.Float.{Float}
use zano_shadow_sim.Timing.Batches.{calculate_upgrade_schedule}
use zano_shadow_sim.Generator.{GenerationConfig, UpgradeSpec, fixed_miners, given_or}
use zano_shadow_sim.Generator.Agents.{numbered}
use zano_shadow_sim.Generator.Sections.{UpgradeTiming}

-- `[f"{name}-{i+1:03}" for i in range(n)]`
unfoldable pub numbered_ids : String → ℕ → List String
numbered_ids name n = map (numbered name) (range_from 0 n)

-- What the schedule of the upgrade has for an agent, with the binaries.
pub record Phases : Type 0 where
  pub binary_v1 : String
  pub binary_v2 : String
  pub schedule : Dict (ℕ × ℕ)

-- `upgrade_schedule[agent_id]`
unfoldable pub phase_times : String → Phases → Result (ℕ × ℕ)
phase_times agent_id p = elim (lookup agent_id p.schedule) [
  | none ↦ err "KeyError"
  | some times ↦ ok times
]

-- The start of the upgrade and the last agent's completion, with the phases of all agents.
pub record Upgrade : Type 0 where
  pub info : UpgradeTiming
  pub phases : Phases

-- `max(p1_start for ...)`
unfoldable pub last_complete : Dict (ℕ × ℕ) → ℕ
last_complete [] = 0
last_complete ((agent_id, times) ∷ schedule) = max times.1 (last_complete schedule)

-- Everyone who is upgraded.
unfoldable pub all_agent_ids : GenerationConfig → List String
unfolding numbered_ids
all_agent_ids cfg =
    numbered_ids "miner" (length fixed_miners)
    ++ (numbered_ids "user" cfg.total_agents ++ numbered_ids "relay" cfg.relay_nodes.count)

module _ (D : Float) (shuffle : ℕ → List String → List String) where
  unfoldable pub upgrade_from : GenerationConfig → UpgradeSpec → ℕ → Upgrade
  unfolding all_agent_ids numbered_ids last_complete
  upgrade_from cfg spec start =
      let schedule =
        calculate_upgrade_schedule shuffle (all_agent_ids cfg) start spec.stagger_s spec.order
          (numbered_ids "miner" (length fixed_miners)) cfg.simulation_seed in
      record {
        info = record {
          upgrade_start_time_s = start;
          last_upgrade_complete_s = last_complete schedule;
          spec = spec;
        };
        phases = record {
          binary_v1 = spec.binary_v1;
          binary_v2 = spec.binary_v2;
          schedule = schedule;
        };
      }

  unfoldable pub plan_upgrade : GenerationConfig → ℕ → Option UpgradeSpec → Result (Option Upgrade)
  unfolding given_or upgrade_from
  plan_upgrade cfg activity_start_time_s none = ok none
  plan_upgrade cfg activity_start_time_s (some spec) = do
    start ← given_or D spec.upgrade_start (activity_start_time_s + spec.steady_state_duration_s)
    ok (some (upgrade_from cfg spec start))

  unfoldable pub plan_if : GenerationConfig → ℕ → Result (Option Upgrade)
  unfolding plan_upgrade
  plan_if cfg activity_start_time_s = plan_upgrade cfg activity_start_time_s cfg.upgrade

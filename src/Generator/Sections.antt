-- ===== src/Generator/Sections.antt =====
-- scripts/config_generation/general_emit.py: the sections `general` and `metadata`.
use zano_shadow_sim.Base.{
  ℕ, ◌+◌, Bool, true, false, not, ◌&&◌, Option, none, some, List, [], ◌∷◌, ◌++◌, String, str_eq,
  ltb, leb, ◌==◌, if◌then◌else◌,
}
use zano_shadow_sim.Timing.{large_sim_native_preemption_threshold}
use zano_shadow_sim.Timing.Batches.{UpgradeOrder, sequential, random, miners_first}
use zano_shadow_sim.Shared.Json.{Json, Jsons, Members, put}
use zano_shadow_sim.Generator.{UpgradeSpec}
use zano_shadow_sim.Generator.Agents.{int_value, time_text, fields}

-- The entry, if the test holds.
unfoldable pub put_if : Bool → String → Json → Members → Members
unfolding put
put_if b key value ms = if b then put key value ms else ms

-- A directory that is given and is not the default.
unfoldable pub put_dir : Option String → String → String → Members → Members
unfolding put_if
put_dir none default key ms = ms
put_dir (some dir) default key ms =
    put_if (not (str_eq dir "") && not (str_eq dir default)) key (Json.text dir) ms

unfoldable pub put_flag : Option Bool → String → Members → Members
unfolding put
put_flag none key ms = ms
put_flag (some b) key ms = put key (Json.boolean b) ms

-- `native_preemption`, switched on for large simulations that leave it open.
unfoldable pub preemption : Option Bool → ℕ → Option Bool
preemption (some b) total_agents = some b
preemption none total_agents =
    if leb large_sim_native_preemption_threshold total_agents then some true else none

abbrev pub daemon_defaults : Json
daemon_defaults = Json.object (
    fields (
      ("log-level", Json.number "1")
      ∷ ("max-log-file-size", Json.number "0")
      ∷ ("db-sync-mode", Json.text "fastest")
      ∷ ("no-zmq", Json.boolean true)
      ∷ ("non-interactive", Json.boolean true)
      ∷ []))

-- The entries that are always there.
unfoldable pub general_start : ℕ → ℕ → ℕ → ℕ → Bool → String → Members
general_start duration_s parallelism simulation_seed bootstrap_end_time_s fast_mode
      fallback_seeds_mode =
    fields (
      ("stop_time", time_text duration_s)
      ∷ ("parallelism", int_value parallelism)
      ∷ ("simulation_seed", int_value simulation_seed)
      ∷ ("enable_dns_server", Json.boolean true)
      ∷ ("fallback_seeds", Json.text fallback_seeds_mode)
      ∷ ("shadow_log_level", Json.text (if fast_mode then "warning" else "info"))
      ∷ ("bootstrap_end_time", time_text bootstrap_end_time_s)
      ∷ ("progress", Json.boolean true)
      ∷ [])

-- `MONEROSIM_SHARED_DIR` or its default is the first argument.
unfoldable pub build_general_config :
    String
    → ℕ
    → ℕ
    → ℕ
    → ℕ
    → Bool
    → ℕ
    → Option Bool
    → ℕ
    → Option String
    → Option String
    → String
    → Members
unfolding general_start put_if put_dir put_flag preemption put
build_general_config default_shared_dir duration_s parallelism simulation_seed bootstrap_end_time_s
      fast_mode process_threads native_preemption total_agents shared_dir daemon_data_dir
      fallback_seeds_mode =
    let start =
      general_start duration_s parallelism simulation_seed bootstrap_end_time_s fast_mode
        fallback_seeds_mode in
    let ahead = put_if fast_mode "runahead" (Json.text "100ms") start in
    let threads =
      put_if (not (process_threads == 1)) "process_threads" (int_value process_threads) ahead in
    let preempted =
      put_flag (preemption native_preemption total_agents) "native_preemption" threads in
    let shared = put_dir shared_dir default_shared_dir "shared_dir" preempted in
    let placed = put_dir daemon_data_dir "/tmp" "daemon_data_dir" shared in
    put "wallet_defaults" (Json.object (fields (("log-level", Json.number "1") ∷ [])))
      (put "daemon_defaults" daemon_defaults placed)

-- What `timing_info` has of an upgrade.
pub record UpgradeTiming : Type 0 where
  pub upgrade_start_time_s : ℕ
  pub last_upgrade_complete_s : ℕ
  pub spec : UpgradeSpec

pub record TimingInfo : Type 0 where
  pub bootstrap_end_time_s : ℕ
  pub md_start_time_s : ℕ
  pub activity_start_time_s : ℕ
  pub last_user_spawn_s : ℕ
  pub user_spawn_start_s : ℕ
  pub duration_s : ℕ
  pub requested_duration_s : ℕ
  pub use_batched : Bool
  pub batch_sizes : List ℕ
  pub batch_interval_s : ℕ
  pub activity_stagger_s : ℕ
  pub tx_interval : ℕ
  pub activity_rollout_duration_s : ℕ
  pub relay_spawn_start_s : ℕ
  pub relay_stagger_s : ℕ
  pub last_relay_spawn_s : ℕ
  pub upgrade : Option UpgradeTiming

unfoldable pub order_text : UpgradeOrder → String
order_text sequential = "sequential"
order_text random = "random"
order_text miners_first = "miners-first"

unfoldable pub upgrade_metadata : UpgradeTiming → Members
unfolding order_text
upgrade_metadata u = fields (
    ("binary_v1", Json.text u.spec.binary_v1)
    ∷ ("binary_v2", Json.text u.spec.binary_v2)
    ∷ ("order", Json.text (order_text u.spec.order))
    ∷ ("start_s", int_value u.upgrade_start_time_s)
    ∷ ("complete_s", int_value u.last_upgrade_complete_s)
    ∷ ("stagger_s", int_value u.spec.stagger_s)
    ∷ ("steady_state_duration_s", int_value u.spec.steady_state_duration_s)
    ∷ ("post_upgrade_duration_s", int_value u.spec.post_upgrade_duration_s)
    ∷ [])

unfoldable pub put_upgrade : Option UpgradeTiming → Members → Members
unfolding upgrade_metadata put
put_upgrade none ms = ms
put_upgrade (some u) ms = put "upgrade" (Json.object (upgrade_metadata u)) ms

unfoldable pub ints : List ℕ → Jsons
ints [] = Jsons.nil
ints (n ∷ ns) = Jsons.cons (int_value n) (ints ns)

unfoldable pub batching_metadata : TimingInfo → ℕ → Members
unfolding ints
batching_metadata info stagger_interval_s =
    if info.use_batched
    then fields (
        ("enabled", Json.boolean true)
        ∷ ("batch_sizes", Json.array (ints info.batch_sizes))
        ∷ ("batch_interval_s", int_value info.batch_interval_s)
        ∷ [])
    else fields (
        ("enabled", Json.boolean false) ∷ ("stagger_interval_s", int_value stagger_interval_s) ∷ [])

unfoldable pub agents_metadata : ℕ → ℕ → ℕ → TimingInfo → Members
agents_metadata num_miners num_users relay_nodes info =
    let counts =
      ("total", int_value (num_miners + num_users + relay_nodes))
      ∷ ("miners", int_value num_miners)
      ∷ ("users", int_value num_users)
      ∷ [] in
    let relays =
      ("relay_nodes", int_value relay_nodes)
      ∷ ("relay_spawn_start_s", int_value info.relay_spawn_start_s)
      ∷ ("relay_stagger_s", int_value info.relay_stagger_s)
      ∷ ("last_relay_spawn_s", int_value info.last_relay_spawn_s)
      ∷ [] in
    fields (if ltb 0 relay_nodes then counts ++ relays else counts)

-- The scenario is "upgrade" where `info` has an upgrade.
unfoldable pub generate_metadata : ℕ → ℕ → TimingInfo → ℕ → String → Bool → ℕ → ℕ → Members
unfolding put_upgrade batching_metadata agents_metadata put
generate_metadata num_miners num_users info simulation_seed gml_path fast_mode stagger_interval_s
      relay_nodes =
    let scenario : String = elim info.upgrade [ none ↦ "default" | some _ ↦ "upgrade" ] in
    let start = fields (
      ("scenario", Json.text scenario)
      ∷ ("generator", Json.text "generate_config.py")
      ∷ ("version", Json.text "1.0")
      ∷ ("agents", Json.object (agents_metadata num_miners num_users relay_nodes info))
      ∷ (
        "timing",
        Json.object (
            fields (
              ("duration_s", int_value info.duration_s)
              ∷ ("bootstrap_end_s", int_value info.bootstrap_end_time_s)
              ∷ ("activity_start_s", int_value info.activity_start_time_s)
              ∷ ("last_user_spawn_s", int_value info.last_user_spawn_s)
              ∷ [])),
      )
      ∷ []) in
    let batched =
      put "batching" (Json.object (batching_metadata info stagger_interval_s))
        (put_upgrade info.upgrade start) in
    let staggered =
      put "activity_stagger"
        (Json.object (
          fields (
            ("stagger_s", int_value info.activity_stagger_s)
            ∷ ("tx_interval", int_value info.tx_interval)
            ∷ ("total_rollout_s", int_value info.activity_rollout_duration_s)
            ∷ [])))
        batched in
    put "settings"
      (Json.object (
        fields (
          ("seed", int_value simulation_seed)
          ∷ ("gml_topology", Json.text gml_path)
          ∷ ("fast_mode", Json.boolean fast_mode)
          ∷ [])))
      staggered

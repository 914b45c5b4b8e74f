-- ===== src/Tests/Generator.antt =====
-- Examples of the laws of the configuration generator.
use zano_shadow_sim.Base.{
  ◌≡◌, ◌<◌, ℕ, refl, true, false, none, some, List, String, arith, codes, ok, value, all_digits,
  is_digit, strip, strip_left, strip_right, is_space, lower,
}
use zano_shadow_sim.Float.Ratio.{ratios, ratios-IsExact}
use zano_shadow_sim.Timing.Batches.{UpgradeOrder}
use zano_shadow_sim.Timing.Duration.{parse_duration}
use zano_shadow_sim.Calibrate.{Calibrator}
use zano_shadow_sim.Shared.Json.{Json, Members, get}
use zano_shadow_sim.Generator.{UpgradeSpec, GenerationConfig}
use zano_shadow_sim.Generator.Sections.{TimingInfo}
use zano_shadow_sim.Generator.Build.{generate_config, requested_duration}
use zano_shadow_sim.Generator.Build.Timeline.{IsTimed, generate_config-times}
use zano_shadow_sim.Generator.Build.Users.{HasUser, generate_config-HasUsers}
use zano_shadow_sim.Generator.Build.Returns.{IsOk}
use zano_shadow_sim.Generator.Build.Total.{IsReadable, generate_config-returns}

abbrev no_calibration : Calibrator
no_calibration = record {
  auto_calibrate_disabled = true;
  auto_calibrate_attempted = false;
  file = none;
}

abbrev same_order : ℕ → List String → List String
same_order seed agents = agents

abbrev upgrade : UpgradeSpec
upgrade = record {
  binary_v1 = "monerod";
  binary_v2 = "monerod-v2";
  upgrade_start = none;
  stagger_s = 30;
  order = UpgradeOrder.miners_first;
  steady_state_duration_s = 7200;
  post_upgrade_duration_s = 7200;
}

-- Three users that are to start after ten minutes, and two relays.
abbrev three_users : GenerationConfig
three_users = record {
  total_agents = 3;
  duration = codes "3600";
  stagger_interval_s = 5;
  simulation_seed = 12345;
  gml_path = "topology.gml";
  fast_mode = false;
  process_threads = 1;
  daemon_binary = "monerod";
  tx_send_probability = "0.75";
  parallelism = 0;
  native_preemption = none;
  fallback_seeds_mode = "custom";
  batched_bootstrap = record {
    mode = "auto";
    batch_interval = codes "1200";
    initial_batch_size = 5;
    max_batch_size = 200;
  };
  timing = record {
    user_spawn_start = some (codes "600");
    bootstrap_end_time = none;
    regular_user_start = none;
    md_start_time = none;
    tx_interval = some 60;
  };
  miner_distributor = record {
    n_recipients = 8;
    out_per_tx = 2;
    output_amount = "5.0";
    funding_cycle_interval = "5m";
  };
  relay_nodes = record { count = 2; spawn_start_s = 5; stagger_s = 20 };
  upgrade = none;
}

abbrev upgraded : GenerationConfig
upgraded = record three_users { upgrade = some upgrade }

upgraded-IsReadable : IsReadable ratios upgraded
unfolding parse_duration requested_duration strip strip_left strip_right is_space lower all_digits
    is_digit value
upgraded-IsReadable = record {
  interval = (1200, refl);
  spawn = (600, refl);
  bootstrap = tt;
  distributor = tt;
  activity = tt;
  total = (3600, refl);
  upgrade = tt;
}

three_users-IsReadable : IsReadable ratios three_users
unfolding parse_duration requested_duration strip strip_left strip_right is_space lower all_digits
    is_digit value
three_users-IsReadable = record {
  interval = (1200, refl);
  spawn = (600, refl);
  bootstrap = tt;
  distributor = tt;
  activity = tt;
  total = (3600, refl);
  upgrade = tt;
}

generate_config-returns_example :
    IsOk (generate_config ratios same_order none 8 "/tmp/monerosim_shared" upgraded no_calibration)
generate_config-returns_example =
    generate_config-returns ratios same_order (λ seed a agents h. h) upgraded (omega arith)
      upgraded-IsReadable none 8 no_calibration "/tmp/monerosim_shared"

abbrev made :
    (r : Members × TimingInfo) × (generate_config ratios same_order none 8 "/tmp/monerosim_shared"
        three_users no_calibration
      ≡ ok r)
unfolding generate_config parse_duration requested_duration strip strip_left strip_right is_space
    lower all_digits is_digit value
made = (_, refl)

generate_config-times_example : IsTimed ratios same_order three_users made.0.0 made.0.1
unfolding made ratios
generate_config-times_example =
    generate_config-times ratios ratios-IsExact same_order none 8 "/tmp/monerosim_shared"
      three_users no_calibration made.0.0 made.0.1 made.1 (omega arith) (omega arith)

generate_config-HasUsers_example :
    (agents : Members) × (get "agents" made.0.0 ≡ some (Json.object agents))
    × ((i : ℕ) → i < 3 → HasUser ratios three_users made.0.1 agents i)
generate_config-HasUsers_example =
    generate_config-HasUsers ratios same_order none 8 "/tmp/monerosim_shared" three_users
      no_calibration made.0.0 made.0.1 refl (omega arith) made.1

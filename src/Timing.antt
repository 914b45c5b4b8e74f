-- ===== src/Timing.antt =====
-- Timeline arithmetic of the generated configurations: scripts/timing_constants.py and
-- scripts/config_generation/timeline.py. Times are seconds of simulated time.
pub mod Duration
pub mod Batches
use zano_shadow_sim.Base.{ℕ}

-- scripts/timing_constants.py
abbrev pub min_bootstrap_end_time_s : ℕ
min_bootstrap_end_time_s = 14400

abbrev pub funding_period_s : ℕ
funding_period_s = 3600

abbrev pub default_auto_threshold : ℕ
default_auto_threshold = 50

abbrev pub default_initial_delay_s : ℕ
default_initial_delay_s = 1200

abbrev pub default_batch_interval_s : ℕ
default_batch_interval_s = 1200

abbrev pub default_initial_batch_size : ℕ
default_initial_batch_size = 5

abbrev pub default_max_batch_size : ℕ
default_max_batch_size = 200

abbrev pub default_intra_batch_stagger_s : ℕ
default_intra_batch_stagger_s = 5

abbrev pub default_upgrade_stagger_s : ℕ
default_upgrade_stagger_s = 30

abbrev pub default_daemon_restart_gap_s : ℕ
default_daemon_restart_gap_s = 300

abbrev pub default_wallet_restart_gap_s : ℕ
default_wallet_restart_gap_s = 300

abbrev pub large_sim_native_preemption_threshold : ℕ
large_sim_native_preemption_threshold = 100

-- scripts/config_generation/timeline.py
abbrev pub user_start_time_s : ℕ
user_start_time_s = 10800

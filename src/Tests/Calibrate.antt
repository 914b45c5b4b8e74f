-- ===== src/Tests/Calibrate.antt =====
-- Examples of the laws of scripts/calibrate.py.
use zano_shadow_sim.Base.{◌≡◌, max, false, none, some, length, All}
use zano_shadow_sim.Float.Ratio.{ratios}
use zano_shadow_sim.Calibrate.{
  Calibration, Calibrator, compute_safe_interval, calculate_activity_start_times,
}
use zano_shadow_sim.Calibrate.Laws.{IsWithin, calculate_activity_start_times_window}

abbrev measured : Calibration
measured = record { p95 = 250000; samples = 12 }

abbrev calibrated : Calibrator
calibrated = record {
  auto_calibrate_disabled = false;
  auto_calibrate_attempted = false;
  file = some measured;
}

abbrev uncalibrated : Calibrator
uncalibrated = record {
  auto_calibrate_disabled = false;
  auto_calibrate_attempted = false;
  file = none;
}

calculate_activity_start_times_window_example :
    let times = (calculate_activity_start_times ratios none 50 1200 60 (some 70) 8 calibrated).0 in
    let interval = (compute_safe_interval ratios none 50 60 (some 70) 8 calibrated).0 in
    (length times ≡ 50) × All (IsWithin 1200 (max interval 50)) times
calculate_activity_start_times_window_example =
    calculate_activity_start_times_window ratios none 50 1200 60 (some 70) 8 calibrated

-- ===== src/Calibrate.antt =====
-- scripts/calibrate.py: the calibration record of this machine, and the intervals, staggers and
-- caps that are computed from it. What the benchmark run leaves behind, the number of processors
-- and the size of the memory are arguments.
pub mod Laws
use zano_shadow_sim.Base.{
  ℕ, ◌+◌, ◌*◌, ◌/◌, min, max, Bool, true, false, ◌||◌, Option, none, some, List, [], map, ltb, leb,
  ◌==◌, if◌then◌else◌, is_some, codes, range_from, is_empty,
}
use zano_shadow_sim.Float.{Float}

-- The entries of calibration.json that are read back.
pub record Calibration : Type 0 where
  pub p95 : ℕ
  pub samples : ℕ

-- The module's globals and the file.
pub record Calibrator : Type 0 where
  pub auto_calibrate_disabled : Bool
  pub auto_calibrate_attempted : Bool
  pub file : Option Calibration

unfoldable pub disable_auto_calibration : Calibrator → Calibrator
disable_auto_calibration c = record c { auto_calibrate_disabled = true }

abbrev pub load_calibration : Calibrator → Option Calibration
load_calibration c = c.file

-- `run_calibration` either saves a record or raises, `none`.
pub run_calibration : Option Calibration → Calibrator → Calibrator
run_calibration none c = c
run_calibration (some saved) c = record c { file = some saved }

unfoldable pub ensure_calibrated : Option Calibration → Calibrator → Calibrator
unfolding run_calibration
ensure_calibrated outcome c =
    if c.auto_calibrate_disabled || c.auto_calibrate_attempted
    then c
    else let tried = record c { auto_calibrate_attempted = true } in
      if is_some (load_calibration tried) then tried else run_calibration outcome tried

-- `_get_core_count`, from `num_cores` (0 where there is none) and `os.cpu_count()`
unfoldable pub get_core_count : ℕ → Option ℕ → ℕ
get_core_count num_cores cpu_count =
    if ltb 0 num_cores
    then num_cores
    else elim cpu_count [ none ↦ 4 | some n ↦ if n == 0 then 4 else n ]

-- `_get_ram_gb`, from `ram_gb` (0 where there is none) and the kilobytes in /proc/meminfo
unfoldable pub get_ram_gb : ℕ → Option ℕ → ℕ
get_ram_gb ram_gb mem_total =
    if ltb 0 ram_gb
    then ram_gb
    else elim mem_total [ none ↦ 2 | some kb ↦ max 1 (kb / (1024 * 1024)) ]

unfoldable pub max_safe_users : ℕ → ℕ → ℕ
max_safe_users cores ram =
    let ram_cap : ℕ =
      (if leb 96 ram
        then 600
        else if leb 48 ram
        then 350
        else if leb 24 ram
        then 150
        else if leb 12 ram
        then 75
        else 30) in
    min ram_cap (max (cores * 3) 10)

abbrev pub crypto_safety_factor : ℕ
crypto_safety_factor = 3

abbrev pub wall_const_s : ℕ
wall_const_s = 1000

abbrev pub wall_per_n_k : ℕ
wall_per_n_k = 1000

abbrev pub min_poll_interval_s : ℕ
min_poll_interval_s = 300

-- The calibrated `p95`, or 60_000 where it is missing or 0.
unfoldable pub resolve_p95 : Option ℕ → Option Calibration → ℕ
resolve_p95 (some p95) cal = if p95 == 0 then 60_000 else p95
resolve_p95 none none = 60_000
resolve_p95 none (some cal) = if cal.p95 == 0 then 60_000 else cal.p95

module _ (D : Float) where
  open D use {F, of_ℕ, parse, add, mul, div, to_int}

  -- Microseconds as seconds.
  seconds_of_us : ℕ → F
  seconds_of_us us = div (of_ℕ us) (of_ℕ 1_000_000)

  unfoldable pub estimate_wall_time_s : ℕ → Option ℕ → Calibrator → ℕ
  unfolding seconds_of_us resolve_p95
  estimate_wall_time_s num_users p95_us c = to_int (
      add (of_ℕ wall_const_s) (
        mul (mul (of_ℕ wall_per_n_k) (seconds_of_us (resolve_p95 p95_us (load_calibration c))))
          (of_ℕ num_users)))

  -- `int(num_users * p95_s * CRYPTO_SAFETY_FACTOR)`
  unfoldable pub crypto_floor : ℕ → ℕ → ℕ
  unfolding seconds_of_us
  crypto_floor num_users p95 =
      to_int (mul (mul (of_ℕ num_users) (seconds_of_us p95)) (of_ℕ crypto_safety_factor))

  -- `int(num_users * num_nodes * SHADOW_EVENT_COST_S / cores)`
  unfoldable pub shadow_floor : ℕ → ℕ → ℕ → ℕ
  shadow_floor num_users num_nodes cores =
      to_int (div (mul (of_ℕ (num_users * num_nodes)) (parse (codes "3.0"))) (of_ℕ cores))

  -- The floor once the calibration has been looked up.
  unfoldable pub floor_of : ℕ → Option ℕ → ℕ → Option Calibration → ℕ
  unfolding crypto_floor shadow_floor
  floor_of num_users num_nodes cores none = 0
  floor_of num_users num_nodes cores (some cal) =
      let nodes : ℕ = (elim num_nodes [ none ↦ num_users | some n ↦ n ]) in
      if cal.samples == 0
      then 0
      else max (crypto_floor num_users cal.p95) (shadow_floor num_users nodes cores)

  module _ (outcome : Option Calibration) where
    unfoldable pub compute_min_safe_interval : ℕ → Option ℕ → ℕ → Calibrator → ℕ × Calibrator
    unfolding ensure_calibrated floor_of
    compute_min_safe_interval num_users num_nodes cores c =
        let c' = ensure_calibrated outcome c in
        if num_users == 0
        then (0, c)
        else (floor_of num_users num_nodes cores (load_calibration c'), c')

    unfoldable pub compute_safe_interval : ℕ → ℕ → Option ℕ → ℕ → Calibrator → ℕ × Calibrator
    compute_safe_interval num_users requested_interval num_nodes cores c =
        let (minimum, c') = compute_min_safe_interval num_users num_nodes cores c in
        (max requested_interval minimum, c')

    unfoldable pub compute_stagger : ℕ → ℕ → Option ℕ → ℕ → Calibrator → ℕ × Calibrator
    compute_stagger num_users tx_interval num_nodes cores c =
        let (effective_interval, c') =
          compute_safe_interval num_users tx_interval num_nodes cores c in
        if num_users == 0 then (0, c) else (max 1 (effective_interval / num_users), c')

    -- `calculate_activity_start_times` of scripts/config_generation/timeline.py
    unfoldable pub calculate_activity_start_times :
        ℕ → ℕ → ℕ → Option ℕ → ℕ → Calibrator → List ℕ × Calibrator
    calculate_activity_start_times num_users base tx_interval num_nodes cores c =
        let (stagger, c') = compute_stagger num_users tx_interval num_nodes cores c in
        if num_users == 0
        then ([], c)
        else (map (λ i. base + i * stagger) (range_from 0 num_users), c')

  -- The recommended polling interval, from `cores` in `_get_core_count`'s range.
  unfoldable pub compute_safe_poll_interval : Option ℕ → ℕ → ℕ
  compute_safe_poll_interval none cores = min_poll_interval_s
  compute_safe_poll_interval (some num_nodes) cores =
      let rate_budget = mul (of_ℕ cores) (div (parse (codes "3.0")) (of_ℕ 256)) in
      if num_nodes == 0
      then min_poll_interval_s
      else if D.le rate_budget (of_ℕ 0)
      then min_poll_interval_s
      else max min_poll_interval_s (to_int (div (of_ℕ num_nodes) rate_budget))

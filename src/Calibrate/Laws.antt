-- ===== src/Calibrate/Laws.antt =====
-- The intervals, staggers and caps of scripts/calibrate.py.
use zano_shadow_sim.Base.{
  ℕ, zero, suc, ◌+◌, ◌*◌, ◌/◌, ◌≤◌, ◌<◌, ◌≡◌, refl, ◌⊎◌, inl, inr, max, false, Option, none, some,
  map, ◌==◌, range_from, arith, All, length, length-map, ◌∙◌, length-range_from,
}
use native.Mathlib.Nat.{div-mul-le_self, mul_comm}
use zano_shadow_sim.Float.{Float}
use zano_shadow_sim.Calibrate.{
  Calibration, Calibrator, ensure_calibrated, get_core_count, get_ram_gb, max_safe_users,
  crypto_floor, shadow_floor, compute_min_safe_interval, compute_safe_interval, compute_stagger,
  calculate_activity_start_times,
}

suc_not_zero : (n : ℕ) → (suc n == 0) ≡ false
suc_not_zero n = ground arith

-- A second call of `ensure_calibrated` changes nothing, whatever its benchmark would save.
pub ensure_calibrated-ensure_calibrated :
    (first second : Option Calibration) (c : Calibrator)
    → ensure_calibrated second (ensure_calibrated first c) ≡ ensure_calibrated first c
unfolding ensure_calibrated
ensure_calibrated-ensure_calibrated none second c = ground arith
ensure_calibrated-ensure_calibrated (some saved) second c = ground arith

-- A calibration record that is there is not replaced.
pub ensure_calibrated-keeps :
    (outcome : Option Calibration) (c : Calibrator) (cal : Calibration)
    → c.file ≡ some cal
    → (ensure_calibrated outcome c).file ≡ some cal
unfolding ensure_calibrated
ensure_calibrated-keeps outcome c cal h = ground arith

-- The cap on users lies between 10 and 600, and more processors and more memory do not lower it.
pub max_safe_users_bounds :
    (cores ram cores' ram' : ℕ)
    → cores ≤ cores'
    → ram ≤ ram'
    → (10 ≤ max_safe_users cores ram)
      × (max_safe_users cores ram ≤ max_safe_users cores' ram')
      × (max_safe_users cores' ram' ≤ 600)
unfolding max_safe_users
max_safe_users_bounds cores ram cores' ram' h k = ground arith

pub get_core_count-pos : (num_cores : ℕ) (cpu : Option ℕ) → 0 < get_core_count num_cores cpu
unfolding get_core_count
get_core_count-pos num_cores none = ground arith
get_core_count-pos num_cores (some n) = ground arith

pub get_ram_gb-pos : (ram_gb : ℕ) (mem : Option ℕ) → 0 < get_ram_gb ram_gb mem
unfolding get_ram_gb
get_ram_gb-pos ram_gb none = ground arith
get_ram_gb-pos ram_gb (some n) = ground arith

module _ (D : Float) (outcome : Option Calibration) where
  -- Where there are users and a calibration with samples, the interval in force is the largest
  -- of the requested one, the crypto floor and the event floor.
  pub compute_safe_interval_floors :
      (users requested nodes cores : ℕ) (c : Calibrator) (cal : Calibration)
      → 0 < users
      → c.file ≡ some cal
      → 0 < cal.samples
      → (compute_safe_interval D outcome users requested (some nodes) cores c).0
        ≡ max requested (max (crypto_floor D users cal.p95) (shadow_floor D users nodes cores))
  unfolding compute_safe_interval compute_min_safe_interval
  compute_safe_interval_floors users requested nodes cores c cal u f s = ground arith

stagger_choice :
    (interval users : ℕ)
    → (1 ≤ max 1 (interval / users))
      × ((max 1 (interval / users) ≡ 1) ⊎ (max 1 (interval / users) * users ≤ interval))
stagger_choice interval users = ground (arith, div-mul-le_self interval users)

module _ (D : Float) (outcome : Option Calibration) where
  -- Where there are users the stagger is at least 1, and one of more than 1 fits all users into
  -- one interval in force.
  pub compute_stagger_fits :
      (users tx_interval : ℕ) (nodes : Option ℕ) (cores : ℕ) (c : Calibrator)
      → 0 < users
      → let stagger = (compute_stagger D outcome users tx_interval nodes cores c).0 in
        (1 ≤ stagger)
        × ((stagger ≡ 1)
            ⊎ (stagger * users
                ≤ (compute_safe_interval D outcome users tx_interval nodes cores c).0))
  unfolding compute_stagger
  compute_stagger_fits zero tx_interval nodes cores c u = elim u [ ]
  compute_stagger_fits (suc users) tx_interval nodes cores c u = rw (suc_not_zero users) (
      stagger_choice (compute_safe_interval D outcome (suc users) tx_interval nodes cores c).0
        (suc users))

-- Times from `base` on, before `base + window`.
abbrev pub IsWithin : ℕ → ℕ → ℕ → Type 0
IsWithin base window t = (base ≤ t) × (t < base + window)

times-IsWithin :
    (base stagger window i n : ℕ)
    → 0 < stagger
    → (i + n) * stagger ≤ window
    → All (IsWithin base window) (map (λ j. base + j * stagger) (range_from i n))
times-IsWithin base stagger window i zero s fits = tt
times-IsWithin base stagger window i (suc n) s fits = (
  (omega arith, grind arith),
  times-IsWithin base stagger window (i + 1) n s (rw (regroup i n) fits),
)
  where
    regroup : (i n : ℕ) → i + 1 + n ≡ i + suc n
    regroup i n = omega arith

window_of_choice :
    (stagger users interval : ℕ)
    → (stagger ≡ 1) ⊎ (stagger * users ≤ interval)
    → (0 + users) * stagger ≤ max interval users
window_of_choice stagger users interval (inl one) = rw one (omega arith)
window_of_choice stagger users interval (inr fits) = omega (arith, mul_comm stagger users)

module _ (D : Float) (outcome : Option Calibration) where
  -- There is one start time for each user, none before the base, and all of them within the
  -- interval in force or, where that is shorter, within as many seconds as there are users.
  pub calculate_activity_start_times_window :
      (users base tx_interval : ℕ) (nodes : Option ℕ) (cores : ℕ) (c : Calibrator)
      → let times =
          (calculate_activity_start_times D outcome users base tx_interval nodes cores c).0 in
        let interval = (compute_safe_interval D outcome users tx_interval nodes cores c).0 in
        (length times ≡ users) × All (IsWithin base (max interval users)) times
  unfolding calculate_activity_start_times
  calculate_activity_start_times_window zero base tx_interval nodes cores c = (refl, tt)
  calculate_activity_start_times_window (suc n) base tx_interval nodes cores c =
      let fits = compute_stagger_fits D outcome (suc n) tx_interval nodes cores c (omega arith) in
      rw (suc_not_zero n) (
        length-map _ (range_from 0 (suc n)) ∙ length-range_from 0 (suc n),
        times-IsWithin base _ _ 0 (suc n) fits.0 (window_of_choice _ (suc n) _ fits.1),
      )

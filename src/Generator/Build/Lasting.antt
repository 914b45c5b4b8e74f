-- ===== src/Generator/Build/Lasting.antt =====
-- How long a generated configuration lasts: after the start of activity, or after its upgrade.
use mathlib.Core.Option
use mathlib.Core.Option.{some-injective}
use mathlib.Core.Path.{subst}
use zano_shadow_sim.Base.{
  ℕ, ◌+◌, ◌≤◌, max, ◌≡◌, refl, ap, sym, ◌∙◌, Option, none, some, String, List, [], ◌∷◌, inl, inr,
  Bool-cases, length, arith, str_eq, ok, bind-ok, ok-injective,
}
use zano_shadow_sim.Base.Dict.{Dict, lookup}
use zano_shadow_sim.Float.{Float}
use zano_shadow_sim.Calibrate.{Calibration, Calibrator}
use zano_shadow_sim.Generator.{
  GenerationConfig, UpgradeSpec, fixed_miners, given_or, min_activity_period_s,
}
use zano_shadow_sim.Timing.Batches.{calculate_upgrade_schedule}
use zano_shadow_sim.Generator.Sections.{UpgradeTiming, TimingInfo}
use zano_shadow_sim.Generator.Build.Plans.{IsPlanned}
use zano_shadow_sim.Generator.Build.{Plan, plan_with, min_duration, timing_info}
use zano_shadow_sim.Generator.Upgrade.{
  Upgrade, last_complete, upgrade_from, plan_upgrade, plan_if, all_agent_ids, numbered_ids,
}

-- The agents' upgrades: when each stops, and when it starts again.
abbrev pub upgrades :
    (ℕ → List String → List String) → GenerationConfig → UpgradeTiming → Dict (ℕ × ℕ)
upgrades shuffle cfg u =
    calculate_upgrade_schedule shuffle (all_agent_ids cfg) u.upgrade_start_time_s u.spec.stagger_s
      u.spec.order (numbered_ids "miner" (length fixed_miners)) cfg.simulation_seed

-- The time that the simulation has to go on after the start of activity, or after each upgrade.
abbrev pub Lasts :
    (ℕ → List String → List String) → GenerationConfig → TimingInfo → Option UpgradeTiming → Type 0
Lasts shuffle cfg info none = info.activity_start_time_s + min_activity_period_s ≤ info.duration_s
Lasts shuffle cfg info (some u) =
    (cfg.upgrade ≡ some u.spec)
    × ((a : String) (times : ℕ × ℕ)
        → lookup a (upgrades shuffle cfg u) ≡ some times
        → times.1 + u.spec.post_upgrade_duration_s ≤ info.duration_s)

-- The reported completion is no earlier than any agent's.
abbrev IsScheduled : (ℕ → List String → List String) → GenerationConfig → UpgradeTiming → Type 0
IsScheduled shuffle cfg u =
    (cfg.upgrade ≡ some u.spec)
    × ((a : String) (times : ℕ × ℕ)
        → lookup a (upgrades shuffle cfg u) ≡ some times
        → times.1 ≤ u.last_upgrade_complete_s)

last_complete-le :
    (schedule : Dict (ℕ × ℕ)) (a : String) (times : ℕ × ℕ)
    → lookup a schedule ≡ some times
    → times.1 ≤ last_complete schedule
unfolding lookup last_complete
last_complete-le [] a times h = absurd cc
last_complete-le ((k, t) ∷ schedule) a times h = elim (Bool-cases (str_eq a k)) [
  | inl here ↦
      let same : t.1 ≡ times.1 = ap (λ s. s.1) (some-injective t times (sym (rw here refl) ∙ h)) in
      omega (arith, same)
  | inr later ↦ omega (arith, last_complete-le schedule a times (sym (rw later refl) ∙ h))
]

plan_upgrade-IsScheduled :
    (D : Float) (shuffle : ℕ → List String → List String) (cfg : GenerationConfig) (activity : ℕ)
    (spec : Option UpgradeSpec) (u : Upgrade)
    → cfg.upgrade ≡ spec
    → plan_upgrade D shuffle cfg activity spec ≡ ok (some u)
    → IsScheduled shuffle cfg u.info
unfolding plan_upgrade upgrade_from
plan_upgrade-IsScheduled D shuffle cfg activity none u e h = absurd cc
plan_upgrade-IsScheduled D shuffle cfg activity (some spec) u e h =
    let (start, _, done) =
      bind-ok (given_or D spec.upgrade_start (activity + spec.steady_state_duration_s))
        (λ start. ok (some (upgrade_from D shuffle cfg spec start))) (some u) h in
    subst (λ (v : Upgrade). IsScheduled shuffle cfg v.info)
      (some-injective (upgrade_from D shuffle cfg spec start) u (ok-injective _ _ done))
      (e, λ a times at. last_complete-le _ a times at)

min_duration-Lasts :
    (shuffle : ℕ → List String → List String) (cfg : GenerationConfig) (p : Plan) (requested : ℕ)
    → ((u : Upgrade) → p.upgrade ≡ some u → IsScheduled shuffle cfg u.info)
    → p.duration_s ≡ max requested (min_duration p.upgrade p.activity_start_time_s)
    → Lasts shuffle cfg (timing_info cfg p) (timing_info cfg p).upgrade
unfolding timing_info min_duration
min_duration-Lasts shuffle cfg p requested scheduled h = go p.upgrade scheduled h
  where
    go :
        (u : Option Upgrade)
        → ((v : Upgrade) → u ≡ some v → IsScheduled shuffle cfg v.info)
        → p.duration_s ≡ max requested (min_duration u p.activity_start_time_s)
        → Lasts shuffle cfg (timing_info cfg p) (Option.map (λ (v : Upgrade). v.info) u)
    go none s h = omega (arith, h)
    go (some u) s h =
        let (planned, bounds) = s u refl in
        (planned, λ a times at. omega (arith, h, bounds a times at))

pub make_plan-Lasts :
    (D : Float) (shuffle : ℕ → List String → List String) (outcome : Option Calibration) (cores : ℕ)
    (cfg : GenerationConfig) (c : Calibrator) (p : Plan)
    → IsPlanned D shuffle outcome cores cfg c p
    → Lasts shuffle cfg (timing_info cfg p) (timing_info cfg p).upgrade
unfolding plan_with plan_if
make_plan-Lasts D shuffle outcome cores cfg c p
      (spawn, chain, upgrade, requested, _, planned, same) =
    subst (λ q. Lasts shuffle cfg (timing_info cfg q) (timing_info cfg q).upgrade) same
      (min_duration-Lasts shuffle cfg
        (plan_with D shuffle outcome cores cfg spawn chain upgrade requested c) requested
        (λ u e.
          plan_upgrade-IsScheduled D shuffle cfg chain.2 cfg.upgrade u refl (planned ∙ ap ok e))
        refl)

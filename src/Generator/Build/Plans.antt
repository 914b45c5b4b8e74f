-- ===== src/Generator/Build/Plans.antt =====
-- What a plan is made of.
use mathlib.Core.Path.{subst}
use zano_shadow_sim.Base.{
  ℕ, ◌≤◌, ◌≡◌, refl, sym, ◌∙◌, Option, none, some, List, String, arith, Option-cases, inl, inr, All,
  All-get_elem?, get_elem?, ok, bind-ok, ok-injective,
}
use zano_shadow_sim.Float.{Float}
use zano_shadow_sim.Calibrate.{Calibration, Calibrator}
use zano_shadow_sim.Calibrate.Laws.{IsWithin, calculate_activity_start_times_window}
use zano_shadow_sim.Generator.{
  GenerationConfig, SpawnSchedule, compute_user_spawn_schedule, compute_timing_chain,
}
use zano_shadow_sim.Generator.Build.{
  Plan, make_plan, plan_with, plan_spawned, plan_chained, plan_upgraded, requested_duration,
}
use zano_shadow_sim.Generator.Upgrade.{Upgrade, plan_if, plan_upgrade}

-- The time of the `i`-th user or, where there is none, the base.
unfoldable pub activity_of : ℕ → List ℕ → ℕ → ℕ
activity_of base times i = elim (get_elem? times i) [ none ↦ base | some t ↦ t ]

module _ (D : Float) (shuffle : ℕ → List String → List String) (outcome : Option Calibration)
    (cores : ℕ) (cfg : GenerationConfig) (c : Calibrator) where
  -- The steps that a plan comes from.
  abbrev pub IsPlanned : Plan → Type 0
  IsPlanned p =
      (spawn : SpawnSchedule) × (chain : ℕ × ℕ × ℕ) × (upgrade : Option Upgrade) × (requested : ℕ)
      × (compute_user_spawn_schedule D cfg.total_agents cfg ≡ ok spawn)
      × (plan_if D shuffle cfg chain.2 ≡ ok upgrade)
      × (plan_with D shuffle outcome cores cfg spawn chain upgrade requested c ≡ p)

  pub make_plan-IsPlanned :
      (p : Plan) → make_plan D shuffle outcome cores cfg c ≡ ok p → IsPlanned p
  unfolding make_plan plan_spawned plan_chained plan_upgraded
  make_plan-IsPlanned p h =
      let (spawn, scheduled, h₁) =
        bind-ok (compute_user_spawn_schedule D cfg.total_agents cfg)
          (plan_spawned D shuffle outcome cores cfg c) p h in
      let (chain, _, h₂) =
        bind-ok (compute_timing_chain D cfg spawn.last_user_spawn_s)
          (plan_chained D shuffle outcome cores cfg spawn c) p h₁ in
      let (upgrade, planned, h₃) =
        bind-ok (plan_if D shuffle cfg chain.2)
          (plan_upgraded D shuffle outcome cores cfg spawn chain c) p h₂ in
      let (requested, _, h₄) =
        bind-ok (requested_duration D cfg.duration)
          (λ requested. ok (plan_with D shuffle outcome cores cfg spawn chain upgrade requested c))
          p h₃ in
      (
        spawn,
        chain,
        upgrade,
        requested,
        scheduled,
        planned,
        ok-injective (plan_with D shuffle outcome cores cfg spawn chain upgrade requested c) p h₄,
      )

  pub IsPlanned-spawn :
      (p : Plan) → IsPlanned p → compute_user_spawn_schedule D cfg.total_agents cfg ≡ ok p.spawn
  unfolding plan_with
  IsPlanned-spawn p (spawn, chain, upgrade, requested, e, _, same) =
      subst (λ (q : Plan). compute_user_spawn_schedule D cfg.total_agents cfg ≡ ok q.spawn) same e

  pub IsPlanned-plain : (p : Plan) → IsPlanned p → cfg.upgrade ≡ none → p.upgrade ≡ none
  unfolding plan_with plan_if plan_upgrade
  IsPlanned-plain p (spawn, chain, upgrade, requested, _, e, same) h =
      subst (λ (q : Plan). q.upgrade ≡ none) same
        (ok-injective upgrade none (sym e ∙ rw (h, plan_upgrade) refl))

  activity-le :
      (base w : ℕ) (times : List ℕ) (i : ℕ)
      → All (IsWithin base w) times
      → base ≤ activity_of base times i
  unfolding activity_of
  activity-le base w times i h = elim (Option-cases (get_elem? times i)) [
    | inl e ↦ rw (e, activity_of) (omega arith)
    | inr (t, e) ↦ rw (e, activity_of) (All-get_elem? (IsWithin base w) times i t h e).0
  ]

  -- No user becomes active before the activity's start.
  pub IsPlanned-activity :
      (p : Plan) (i : ℕ)
      → IsPlanned p
      → p.activity_start_time_s ≤ activity_of p.activity_start_time_s p.user_activity_times i
  unfolding plan_with
  IsPlanned-activity p i (spawn, chain, upgrade, requested, _, _, same) =
      subst
        (λ (q : Plan).
          q.activity_start_time_s ≤ activity_of q.activity_start_time_s q.user_activity_times i)
        same
        (activity-le chain.2 _ _ i
          (calculate_activity_start_times_window D outcome cfg.total_agents chain.2 _ _ cores _).1)

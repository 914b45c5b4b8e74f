-- ===== src/Scenario/Auto/Laws.antt =====
-- The agents after their "auto" values are resolved.
use mathlib.Core.Option
use mathlib.Core.Path.{subst}
use zano_shadow_sim.Base.{
  ℕ, length, ◌+◌, Bool, false, ◌≡◌, refl, sym, ◌∙◌, inl, inr, Option, none, some, [], ◌∷◌, String,
  arith, ok, ◌>>=◌, bind-ok, ok-injective, All, Bool-cases,
}
use zano_shadow_sim.Base.Dict.{Dict, lookup}
use zano_shadow_sim.Float.{Float}
use zano_shadow_sim.Timing.{default_daemon_restart_gap_s, default_wallet_restart_gap_s}
use zano_shadow_sim.Calibrate.{
  Calibration, Calibrator, compute_min_safe_interval, compute_safe_poll_interval,
}
use zano_shadow_sim.Scenario.Auto.{
  Setting, AgentSettings, is_auto, Gathered, nothing_gathered, gather, stop_seconds, restart,
  or_auto, seconds_or, with_values, resolve_agent, resolve_agents, safe_agents,
  resolve_auto_agent_values, in_seconds,
}

-- The agent with this interval.
abbrev pub with_seconds : ℕ → AgentSettings → AgentSettings
with_seconds n a = record a { transaction_interval = some (Setting.seconds n) }

module _ (D : Float) where
  -- The calibrated minimum for the users that were gathered.
  abbrev pub minimum : Option Calibration → ℕ → ℕ → Gathered → Calibrator → ℕ
  minimum outcome cores nodes g c =
      (compute_min_safe_interval D outcome (length g.users) (some nodes) cores c).0

  -- No key that is resolved is "auto".
  pub IsResolved : String × AgentSettings → Type 0
  IsResolved (agent_id, a) =
      (is_auto a.activity_start_time ≡ false)
      × (is_auto a.poll_interval ≡ false)
      × (is_auto a.wait_time ≡ false)
      × (is_auto a.daemon_1_start ≡ false)
      × (is_auto a.wallet_1_start ≡ false)

  or_auto-lem :
      (value : Option Setting) (s : Setting)
      → is_auto (some s) ≡ false
      → is_auto (or_auto D value s) ≡ false
  unfolding or_auto
  or_auto-lem value s h = ground arith

  seconds_or-lem : (o : Option ℕ) (n : ℕ) → is_auto (some (seconds_or D o n)) ≡ false
  unfolding is_auto
  seconds_or-lem none n = refl
  seconds_or-lem (some m) n = refl

  restart-lem :
      (start stop v : Option Setting) (gap : ℕ)
      → restart D start stop gap ≡ ok v
      → is_auto v ≡ false
  unfolding restart
  restart-lem start stop v gap h = elim (Bool-cases (is_auto start)) [
    | inl holds ↦
        let (n, e, q) =
          bind-ok (stop_seconds D stop) (λ s. ok (some (Setting.duration (in_seconds (s + gap))))) v
            (sym (rw holds refl) ∙ h) in
        subst (λ t. is_auto t ≡ false)
          (ok-injective (some (Setting.duration (in_seconds (n + gap)))) v q)
          (unfold is_auto in refl)
    | inr fails ↦
        subst (λ t. is_auto t ≡ false) (ok-injective start v (sym (rw fails refl) ∙ h)) fails
  ]

  resolve_agent-IsResolved :
      (times : Dict ℕ) (activity md poll : ℕ) (agent_id : String) (a b : AgentSettings)
      → resolve_agent D times activity md poll agent_id a ≡ ok b
      → IsResolved (agent_id, b)
  unfolding resolve_agent IsResolved
  resolve_agent-IsResolved times activity md poll agent_id a b h =
      let made : Option Setting → Option Setting → AgentSettings =
        with_values D times activity md poll agent_id a in
      let (daemon_1, e, rest) =
        bind-ok (restart D a.daemon_1_start a.daemon_0_stop default_daemon_restart_gap_s)
          (λ d. restart D a.wallet_1_start a.wallet_0_stop default_wallet_restart_gap_s >>= λ w.
            ok (made d w))
          b h in
      let (wallet_1, f, done) =
        bind-ok (restart D a.wallet_1_start a.wallet_0_stop default_wallet_restart_gap_s)
          (λ w. ok (made daemon_1 w)) b rest in
      subst (λ t. IsResolved (agent_id, t)) (ok-injective (made daemon_1 wallet_1) b done)
        (
          or_auto-lem a.activity_start_time _ (seconds_or-lem (lookup agent_id times) activity),
          or_auto-lem a.poll_interval (Setting.seconds poll) (unfold is_auto in refl),
          or_auto-lem a.wait_time (Setting.seconds md) (unfold is_auto in refl),
          restart-lem a.daemon_1_start a.daemon_0_stop daemon_1 default_daemon_restart_gap_s e,
          restart-lem a.wallet_1_start a.wallet_0_stop wallet_1 default_wallet_restart_gap_s f,
        )

  resolve_agents-IsResolved :
      (times : Dict ℕ) (activity md poll : ℕ) (agents result : Dict AgentSettings)
      → resolve_agents D times activity md poll agents ≡ ok result
      → All IsResolved result
  unfolding resolve_agents
  resolve_agents-IsResolved times activity md poll [] result h =
      subst (All IsResolved) (ok-injective [] result h) tt
  resolve_agents-IsResolved times activity md poll ((k, a) ∷ agents) result h =
      let (b, e, rest) =
        bind-ok (resolve_agent D times activity md poll k a)
          (λ b. resolve_agents D times activity md poll agents >>= λ bs. ok ((k, b) ∷ bs)) result
          h in
      let (bs, f, done) =
        bind-ok (resolve_agents D times activity md poll agents) (λ bs. ok ((k, b) ∷ bs)) result
          rest in
      subst (All IsResolved) (ok-injective ((k, b) ∷ bs) result done) (
        resolve_agent-IsResolved times activity md poll k a b e,
        resolve_agents-IsResolved times activity md poll agents bs f,
      )

  -- Where the automatic values are resolved without an error, no agent has "auto" left as its
  -- activity start, polling interval, waiting time, or start of a second daemon or wallet.
  pub resolve_auto_agent_values-IsResolved :
      (outcome : Option Calibration) (cores : ℕ) (respect : Bool) (total_nodes activity md : ℕ)
      (agents result : Dict AgentSettings) (c : Calibrator)
      → resolve_auto_agent_values D outcome cores respect total_nodes activity md agents c
        ≡ ok result
      → All IsResolved result
  unfolding resolve_auto_agent_values
  resolve_auto_agent_values-IsResolved outcome cores respect total_nodes activity md agents result c
        h =
      let (g, e, rest) = bind-ok (gather D agents nothing_gathered) _ result h in
      resolve_agents-IsResolved _ activity md
        (compute_safe_poll_interval D (some total_nodes) cores)
        (safe_agents D outcome cores respect total_nodes g agents c).0.1 result rest

-- ===== src/Distributor/Run/Ends.antt =====
-- Whether the initial funding ends: `_perform_initial_funding` and `_fund_miners_first` call each
-- other.
use zano_shadow_sim.Base.{
  ℕ, zero, suc, ◌≡◌, refl, inl, inr, Bool, true, false, not, Option, none, some, arith, ap, ◌∙◌,
  if◌then◌else◌, Option-cases, is_empty, is_some, ◌==◌,
}
use zano_shadow_sim.Float.{Float}
use zano_shadow_sim.Distributor.{Status, Md, Env}
use zano_shadow_sim.Distributor.Run.{
  read_funding_status, load_funding_progress, discover_miners, check_maturity_gate,
}
use zano_shadow_sim.Distributor.Run.Cycle.{
  miners_with_wallets, count_funded, perform_initial_funding, paused, run_iteration,
}

module _ {D : Float} (E : Env D) where
  -- Discovery finds no miner with an address.
  abbrev pub no_wallets : Md D → E.World → Bool
  no_wallets md w = is_empty (miners_with_wallets (discover_miners E md w).0.miners)

  -- The miners without an address that answer when they are asked for one, and the world then.
  abbrev pub asked : Md D → E.World → ℕ × E.World
  asked md w = let (md', w') = discover_miners E md w in count_funded E md'.miners w'

  -- Once a miner has answered with its address, the next discovery finds an address.
  pub record IsVisible : Type 0 where
    pub visible :
        (md md' : Md D) (w : E.World)
        → no_wallets md w ≡ true
        → ((asked md w).0 == 0) ≡ false
        → no_wallets md' (asked md w).1 ≡ false

  -- Miners are found and answer with an address, and no discovery finds it.
  pub record IsInvisible : Type 0 where
    pub found : (md : Md D) (w : E.World) → is_empty (discover_miners E md w).0.miners ≡ false
    pub unseen : (md : Md D) (w : E.World) → no_wallets md w ≡ true
    pub answers : (md : Md D) (w : E.World) → ((asked md w).0 == 0) ≡ false

  is_some-if :
      {A : Type 0} (b : Bool) (x y : Option A)
      → (b ≡ true → is_some x ≡ true)
      → (b ≡ false → is_some y ≡ true)
      → is_some (if b then x else y) ≡ true
  is_some-if true x y h k = h refl
  is_some-if false x y h k = k refl

  load-keeps_waiting :
      (md : Md D) → (load_funding_progress md).1.waiting_for_maturity ≡ md.waiting_for_maturity
  unfolding load_funding_progress
  load-keeps_waiting md = ground arith

  gate_open :
      (current_time : ℕ) (md : Md D) (w : E.World)
      → md.waiting_for_maturity ≡ false
      → check_maturity_gate E current_time md w ≡ (md, w)
  unfolding check_maturity_gate
  gate_open current_time md w h = rw h refl

  discover-keeps_waiting :
      (md : Md D) (w : E.World)
      → (discover_miners E md w).0.waiting_for_maturity ≡ md.waiting_for_maturity
  unfolding discover_miners
  discover-keeps_waiting md w = elim (Option-cases (E.agent_registry w)) [
    | inl e ↦ rw (e, discover_miners) refl
    | inr (agents, e) ↦
        rw (e, discover_miners)
          (elim (Option-cases (E.miner_registry w)) [
            | inl f ↦ rw f refl
            | inr (infos, f) ↦ rw f refl
          ])
  ]

  -- A call that finds an address, and does not wait, is the last one.
  returns_with_wallets :
      (fuel : ℕ) (md : Md D) (w : E.World)
      → md.waiting_for_maturity ≡ false
      → ((md' : Md D) → no_wallets md' w ≡ false)
      → is_some (perform_initial_funding E (suc fuel) md w) ≡ true
  unfolding perform_initial_funding
  returns_with_wallets fuel md w waits seen =
      let loaded = load_funding_progress md in
      let open_gate = gate_open (E.now w) loaded.1 w (load-keeps_waiting md ∙ waits) in
      let found = discover_miners E loaded.1 w in
      rw (open_gate, perform_initial_funding)
        (is_some-if {A = Md D × E.World} (not loaded.0) _ _ (λ _. refl)
          (λ _.
            is_some-if {A = Md D × E.World} loaded.1.waiting_for_maturity _ _ (λ _. refl)
              (λ _.
                is_some-if {A = Md D × E.World} (is_empty found.0.miners) _ _ (λ _. refl)
                  (λ _. rw (seen loaded.1) refl))))

  -- Where discovery finds the addresses that miners answer with, two calls of the initial funding
  -- are enough.
  perform_initial_funding-returns :
      (fuel : ℕ) (md : Md D) (w : E.World)
      → IsVisible
      → is_some (perform_initial_funding E (suc (suc fuel)) md w) ≡ true
  unfolding perform_initial_funding
  perform_initial_funding-returns fuel md w v =
      let loaded = load_funding_progress md in
      let gate = check_maturity_gate E (E.now w) loaded.1 w in
      let found = discover_miners E gate.0 gate.1 in
      let counted = count_funded E found.0.miners found.1 in
      let ready = miners_with_wallets found.0.miners in
      is_some-if {A = Md D × E.World} (not loaded.0) _ _ (λ _. refl)
        (λ _.
          is_some-if {A = Md D × E.World} gate.0.waiting_for_maturity _ _ (λ _. refl)
            (λ waits.
              is_some-if {A = Md D × E.World} (is_empty found.0.miners) _ _ (λ _. refl)
                (λ _.
                  is_some-if {A = Md D × E.World} (is_empty ready) _ _
                    (λ unseen.
                      is_some-if {A = Md D × E.World} (counted.0 == 0) _ _ (λ _. refl)
                        (λ answered.
                          returns_with_wallets fuel found.0 counted.1
                            (discover-keeps_waiting gate.0 gate.1 ∙ waits)
                            (λ md'. v.visible gate.0 md' gate.1 unseen answered)))
                    (λ _. refl))))

  is_some-paused : (o : Option (Md D × E.World)) → is_some o ≡ true → is_some (paused E o) ≡ true
  unfolding paused
  is_some-paused none h = h
  is_some-paused (some out) h = refl

  -- Where a discovery after a miner has answered with its address finds an address, an iteration
  -- ends, with at most two calls of the initial funding.
  pub run_iteration-returns :
      (fuel : ℕ) (md : Md D) (w : E.World)
      → IsVisible
      → is_some (run_iteration E (suc (suc fuel)) md w) ≡ true
  unfolding run_iteration
  run_iteration-returns fuel md w v =
      let found = discover_miners E md w in
      let gate = check_maturity_gate E (E.now found.1) found.0 found.1 in
      is_some-if {A = ℕ × Md D × E.World} found.0.initial_funding_completed _ _ (λ _. refl)
        (λ _.
          is_some-if {A = ℕ × Md D × E.World} gate.0.waiting_for_maturity _ _ (λ _. refl)
            (λ _.
              is_some-paused (perform_initial_funding E (suc (suc fuel)) gate.0 gate.1)
                (perform_initial_funding-returns fuel gate.0 gate.1 v)))

  discover-keeps_status :
      (md : Md D) (w : E.World)
      → read_funding_status (discover_miners E md w).0 ≡ read_funding_status md
  unfolding discover_miners read_funding_status
  discover-keeps_status md w = elim (Option-cases (E.agent_registry w)) [
    | inl e ↦ rw (e, discover_miners) refl
    | inr (agents, e) ↦
        rw (e, discover_miners)
          (elim (Option-cases (E.miner_registry w)) [
            | inl f ↦ rw f refl
            | inr (infos, f) ↦ rw f refl
          ])
  ]

  load-goes_on :
      (md : Md D)
      → (read_funding_status md).completed ≡ false
      → ((load_funding_progress md).0 ≡ true)
        × (read_funding_status (load_funding_progress md).1 ≡ read_funding_status md)
  unfolding load_funding_progress read_funding_status
  load-goes_on md h = ground arith

  -- Where miners are found and answer with an address, and no discovery finds an address, an
  -- initial funding that is neither complete nor waiting for maturity runs out of every amount
  -- of fuel.
  pub perform_initial_funding_endless :
      (fuel : ℕ) (md : Md D) (w : E.World)
      → IsInvisible
      → (read_funding_status md).completed ≡ false
      → md.waiting_for_maturity ≡ false
      → perform_initial_funding E fuel md w ≡ none
  unfolding perform_initial_funding
  perform_initial_funding_endless zero md w i todo waits = refl
  perform_initial_funding_endless (suc fuel) md w i todo waits =
      let loaded = load_funding_progress md in
      let goes_on = load-goes_on md todo in
      let waits' = load-keeps_waiting md ∙ waits in
      let open_gate = gate_open (E.now w) loaded.1 w waits' in
      let found = discover_miners E loaded.1 w in
      let kept = discover-keeps_status loaded.1 w ∙ goes_on.1 in
      rw
        (
          open_gate,
          goes_on.0,
          waits',
          i.found loaded.1 w,
          i.unseen loaded.1 w,
          i.answers loaded.1 w,
          perform_initial_funding,
        )
        (perform_initial_funding_endless fuel found.0 (asked loaded.1 w).1 i
          (ap (λ (s : Status). s.completed) kept ∙ todo)
          (discover-keeps_waiting loaded.1 w ∙ waits'))

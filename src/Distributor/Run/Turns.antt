-- ===== src/Distributor/Run/Turns.antt =====
-- The books from turn to turn: `run_iteration` of agents/miner_distributor/agent.py.
use zano_shadow_sim.Base.{
  ℕ, zero, suc, ◌≡◌, refl, inl, inr, Bool, true, false, not, ◌||◌, Option, none, some, List, [],
  String, arith, ◌∙◌, map, contains, length, if◌then◌else◌, Bool-cases, is_empty, ◌==◌,
}
use zano_shadow_sim.Float.{Float}
use zano_shadow_sim.Distributor.{Agent, Miner, Md, Env}
use zano_shadow_sim.Distributor.Send.{ids}
use zano_shadow_sim.Distributor.Funding.{
  write_funding_status, finalize_funding_status, batch_recipients, process_funding_batches,
}
use zano_shadow_sim.Distributor.Funding.Bookkeeping.{IsConsistent, IsOpen}
use zano_shadow_sim.Distributor.Funding.Process.{process_funding_batches-IsConsistent}
use zano_shadow_sim.Distributor.Run.{
  load_funding_progress, all_eligible, unfunded_of, collect_eligible_recipients, discover_miners,
  check_maturity_gate,
}
use zano_shadow_sim.Distributor.Run.Cycle.{
  miners_with_wallets, count_funded, fund_collected, fund_recipients, perform_initial_funding,
  paused, run_iteration,
}
use zano_shadow_sim.Distributor.Run.Eligible.{unfunded_of-IsDistinct, unfunded_of-IsOpen}
use zano_shadow_sim.Distributor.Run.Resume.{
  IsSound, write_funding_status-IsSound, load_funding_progress-IsSound,
}
use zano_shadow_sim.Timing.Batches.Schedule.{IsDistinct}
use zano_shadow_sim.Distributor.Run.Untouched.{
  IsSound-of_untouched, IsSound-of_IsWritten, finalize_funding_status-IsSound,
  discover_miners-IsUntouched, check_maturity_gate-IsUntouched, cycle_turn-IsUntouched,
  process_funding_batches-IsWritten,
}

-- The agent registry lists an id once.
pub record IsRegistry {D : Float} (E : Env D) : Type 0 where
  pub registry_distinct :
      (w : E.World) (agents : List Agent)
      → E.agent_registry w ≡ some agents
      → IsDistinct (ids agents)

module _ {D : Float} (E : Env D) where
  -- The run over the batches, and the completion test after it.
  processed-IsSound :
      (all_agents unfunded : List Agent) (total : ℕ) (md : Md D) (w : E.World)
      → IsDistinct (ids unfunded)
      → ((x : String) → contains x (ids unfunded) ≡ true → IsOpen md.books x)
      → IsConsistent md.books
      → IsSound md
      → let (completed, md2, w2) =
          process_funding_batches E (batch_recipients md unfunded) total [] md w in
        IsSound (if completed then finalize_funding_status all_agents md2 else md2)
  processed-IsSound all_agents unfunded total md w u fresh c sound =
      let batches = batch_recipients md unfunded in
      let run = process_funding_batches E batches total [] md w in
      let c' = process_funding_batches-IsConsistent E md unfunded total w u fresh c in
      elim (Bool-cases run.0) [
        | inl done ↦ rw done (finalize_funding_status-IsSound all_agents run.1 c')
        | inr stop ↦ rw stop (elim (process_funding_batches-IsWritten E batches total [] md w) [
          | inl e ↦ IsSound-of_untouched md run.1 (rw e (refl, refl)) sound
          | inr e ↦ IsSound-of_IsWritten false run.1 e c'
        ])
      ]

  abbrev CollectedSound : ℕ → E.World → Option (List Agent × List Agent) × Md D → Type 0
  CollectedSound total w c = IsSound (fund_collected E total w c).0

  CollectedSound-if :
      (total : ℕ) (w : E.World) (b : Bool) (x y : Option (List Agent × List Agent) × Md D)
      → CollectedSound total w x
      → CollectedSound total w y
      → CollectedSound total w (if b then x else y)
  CollectedSound-if total w true x y h k = h
  CollectedSound-if total w false x y h k = k

  collected-IsSound :
      (total : ℕ) (registry : Option (List Agent)) (md : Md D) (w : E.World)
      → ((agents : List Agent) → registry ≡ some agents → IsDistinct (ids agents))
      → IsConsistent md.books
      → IsSound md
      → CollectedSound total w (collect_eligible_recipients registry md)
  unfolding collect_eligible_recipients fund_collected
  collected-IsSound total none md w reg c sound = sound
  collected-IsSound total (some registry) md w reg c sound =
      let miner_ids = map (λ (m : Miner). m.agent_id) md.miners in
      let all_agents = all_eligible miner_ids registry in
      let unfunded = unfunded_of md.books all_agents in
      CollectedSound-if total w (is_empty all_agents || is_empty unfunded) _ _
        (IsSound-of_untouched (write_funding_status true md) _ (refl, refl)
          (write_funding_status-IsSound true md c))
        (processed-IsSound all_agents unfunded total md w
          (unfunded_of-IsDistinct md.books miner_ids registry (reg registry refl))
          (unfunded_of-IsOpen md.books all_agents) c sound)

  -- A turn that was not cut off leaves a sound state.
  abbrev EndsSound : Option (Md D × E.World) → Type 0
  EndsSound none = Unit
  EndsSound (some out) = IsSound out.0

  EndsSound-if :
      (b : Bool) (x y : Option (Md D × E.World))
      → (b ≡ true → EndsSound x)
      → (b ≡ false → EndsSound y)
      → EndsSound (if b then x else y)
  EndsSound-if true x y h k = h refl
  EndsSound-if false x y h k = k refl

  perform_initial_funding-EndsSound :
      (fuel : ℕ) (md : Md D) (w : E.World)
      → IsRegistry E
      → IsSound md
      → EndsSound (perform_initial_funding E fuel md w)
  unfolding perform_initial_funding fund_recipients
  perform_initial_funding-EndsSound zero md w reg sound = tt
  perform_initial_funding-EndsSound (suc fuel) md w reg sound =
      let loaded = load_funding_progress md in
      let gate = check_maturity_gate E (E.now w) loaded.1 w in
      let found = discover_miners E gate.0 gate.1 in
      let counted = count_funded E found.0.miners found.1 in
      let ready = miners_with_wallets found.0.miners in
      let s0 = load_funding_progress-IsSound md sound in
      let at_gate = check_maturity_gate-IsUntouched E (E.now w) loaded.1 w in
      let at_found = discover_miners-IsUntouched E gate.0 gate.1 in
      let s1 = IsSound-of_untouched loaded.1 gate.0 at_gate s0.0 in
      let s2 = IsSound-of_untouched gate.0 found.0 at_found s1 in
      EndsSound-if (not loaded.0) _ _ (λ _. s0.0)
        (λ proceed.
          EndsSound-if gate.0.waiting_for_maturity _ _ (λ _. s1)
            (λ _.
              EndsSound-if (is_empty found.0.miners) _ _ (λ _. s2)
                (λ _.
                  EndsSound-if (is_empty ready) _ _
                    (λ _.
                      EndsSound-if (counted.0 == 0) _ _ (λ _. s2)
                        (λ _. perform_initial_funding-EndsSound fuel found.0 counted.1 reg s2))
                    (λ _.
                      collected-IsSound (length ready) (E.agent_registry found.1) found.0 found.1
                        (reg.registry_distinct found.1)
                        (rw (at_found.0 ∙ at_gate.0) (s0.1 (ground arith))) s2))))

  -- The state that an iteration of the agent ends in.
  abbrev pub IterationSound : Option (ℕ × Md D × E.World) → Type 0
  IterationSound none = Unit
  IterationSound (some (wait, md, w)) = IsSound md

  IterationSound-if :
      (b : Bool) (x y : Option (ℕ × Md D × E.World))
      → IterationSound x
      → IterationSound y
      → IterationSound (if b then x else y)
  IterationSound-if true x y h k = h
  IterationSound-if false x y h k = k

  paused-IsSound : (o : Option (Md D × E.World)) → EndsSound o → IterationSound (paused E o)
  unfolding paused
  paused-IsSound none h = tt
  paused-IsSound (some out) h = h

  -- Where the agent registry lists an id once, an iteration that starts from a sound state and
  -- is not cut off by its fuel ends in one, whatever the wallets answer: the status file, the
  -- given-up recipients and the counts give books in which nobody is in two of the sets funded,
  -- failed and given up, and no count of who is not given up reaches the threshold.
  pub run_iteration-IsSound :
      (fuel : ℕ) (md : Md D) (w : E.World)
      → IsRegistry E
      → IsSound md
      → IterationSound (run_iteration E fuel md w)
  unfolding run_iteration
  run_iteration-IsSound fuel md w reg sound =
      let found = discover_miners E md w in
      let current_time = E.now found.1 in
      let gate = check_maturity_gate E current_time found.0 found.1 in
      let s1 = IsSound-of_untouched md found.0 (discover_miners-IsUntouched E md w) sound in
      let s2 =
        IsSound-of_untouched found.0 gate.0
          (check_maturity_gate-IsUntouched E current_time found.0 found.1) s1 in
      IterationSound-if found.0.initial_funding_completed _ _
        (IsSound-of_untouched found.0 _ (cycle_turn-IsUntouched E current_time found.0 found.1) s1)
        (IterationSound-if gate.0.waiting_for_maturity _ _
          (IsSound-of_untouched gate.0 _ (cycle_turn-IsUntouched E current_time gate.0 gate.1) s2)
          (paused-IsSound (perform_initial_funding E fuel gate.0 gate.1)
            (perform_initial_funding-EndsSound fuel gate.0 gate.1 reg s2)))

-- ===== src/Distributor/Run/Untouched.antt =====
-- What the steps of a turn do to the books and to the status file.
use zano_shadow_sim.Base.{
  ℕ, ◌+◌, ◌≡◌, refl, ◌⊎◌, inl, inr, Bool, true, false, List, [], ◌∷◌, String, arith, length, leb,
  Bool-cases, Option-cases,
}
use zano_shadow_sim.Float.{Float}
use zano_shadow_sim.Distributor.{Agent, Md, Env}
use zano_shadow_sim.Distributor.Funding.{
  write_funding_status, save, finalize_funding_status, retry_failed_batch, process_batch,
  process_funding_batches,
}
use zano_shadow_sim.Distributor.Funding.Bookkeeping.{IsConsistent}
use zano_shadow_sim.Distributor.Run.{
  read_funding_status, discover_miners, check_miner_balance, check_maturity_gate,
}
use zano_shadow_sim.Distributor.Run.Cycle.{run_funding_cycle, cycle_turn}
use zano_shadow_sim.Distributor.Run.Resume.{IsSound, write_funding_status-IsSound}

module _ {D : Float} where
  -- The books and the status file are as before.
  abbrev pub IsUntouched : Md D → Md D → Type 0
  IsUntouched md md' = (md'.books ≡ md.books) × (md'.status ≡ md.status)

  pub IsSound-of_untouched : (md md' : Md D) → IsUntouched md md' → IsSound md → IsSound md'
  unfolding IsSound read_funding_status
  IsSound-of_untouched md md' (b, s) c = rw (b, s) c

  -- The file holds what the books hold.
  abbrev pub IsWritten : Bool → Md D → Type 0
  IsWritten completed md = md.status ≡ (write_funding_status completed md).status

  pub IsSound-of_IsWritten :
      (completed : Bool) (md : Md D) → IsWritten completed md → IsConsistent md.books → IsSound md
  unfolding write_funding_status
  IsSound-of_IsWritten completed md e c =
      IsSound-of_untouched (write_funding_status completed md) md (refl, e)
        (write_funding_status-IsSound completed md c)

  pub finalize_funding_status-IsSound :
      (agents : List Agent) (md : Md D)
      → IsConsistent md.books
      → IsSound (finalize_funding_status agents md)
  unfolding finalize_funding_status write_funding_status
  finalize_funding_status-IsSound agents md c =
      let all_done = leb (length agents) (length md.books.funded + length md.books.permanent) in
      elim (Bool-cases all_done) [
        | inl e ↦ rw e (IsSound-of_IsWritten true _ refl c)
        | inr e ↦ rw e (IsSound-of_IsWritten false _ refl c)
      ]

module _ {D : Float} (E : Env D) where
  pub discover_miners-IsUntouched :
      (md : Md D) (w : E.World) → IsUntouched md (discover_miners E md w).0
  unfolding discover_miners
  discover_miners-IsUntouched md w = elim (Option-cases (E.agent_registry w)) [
    | inl e ↦ rw (e, discover_miners) (refl, refl)
    | inr (agents, e) ↦
        rw (e, discover_miners)
          (elim (Option-cases (E.miner_registry w)) [
            | inl f ↦ rw f (refl, refl)
            | inr (infos, f) ↦ rw f (refl, refl)
          ])
  ]

  pub check_maturity_gate-IsUntouched :
      (current_time : ℕ) (md : Md D) (w : E.World)
      → IsUntouched md (check_maturity_gate E current_time md w).0
  unfolding check_maturity_gate check_miner_balance
  check_maturity_gate-IsUntouched current_time md w = ground arith

  pub run_funding_cycle-IsUntouched :
      (md : Md D) (w : E.World) → IsUntouched md (run_funding_cycle E md w).0
  unfolding run_funding_cycle
  run_funding_cycle-IsUntouched md w = ground arith

  pub cycle_turn-IsUntouched :
      (current_time : ℕ) (md : Md D) (w : E.World)
      → IsUntouched md (cycle_turn E current_time md w).1
  unfolding cycle_turn
  cycle_turn-IsUntouched current_time md w = ground (arith, run_funding_cycle-IsUntouched md w)

  pub process_batch-IsWritten :
      (md : Md D) (batch : List Agent) (exhausted : List String) (total : ℕ) (w : E.World)
      → IsWritten false (process_batch E md batch exhausted total w).1
  unfolding process_batch retry_failed_batch save write_funding_status
  process_batch-IsWritten md batch exhausted total w = ground arith

  pub process_funding_batches-IsWritten :
      (batches : List (List Agent)) (total : ℕ) (exhausted : List String) (md : Md D) (w : E.World)
      → (process_funding_batches E batches total exhausted md w).1 ≡ md
        ⊎ IsWritten false (process_funding_batches E batches total exhausted md w).1
  unfolding process_funding_batches
  process_funding_batches-IsWritten [] total exhausted md w = inl refl
  process_funding_batches-IsWritten (batch ∷ batches) total exhausted md w =
      let round = process_batch E md batch exhausted total w in
      let written = process_batch-IsWritten md batch exhausted total w in
      elim (Bool-cases round.0) [
        | inl go ↦
            rw go (elim (process_funding_batches-IsWritten batches total round.2 round.1 round.3) [
              | inl e ↦ inr (rw e written)
              | inr e ↦ inr e
            ])
        | inr stop ↦ rw stop (inr written)
      ]

-- ===== src/Distributor/Run/Failover.antt =====
-- The failover of the funding cycle: `_run_funding_cycle` of agents/miner_distributor/agent.py and
-- agents/miner_distributor/funding.py.
use zano_shadow_sim.Base.{
  ℕ, zero, suc, ◌≡◌, ◌≤◌, refl, sym, arith, Result, ok, err, Bool-cases, inl, inr, Bool, true,
  false, Option, none, some, List, [], ◌∷◌, String, ap, is_empty, length, take, add, leb, ◌==◌,
  if◌then◌else◌, Option-cases, Result-cases,
}
use zano_shadow_sim.Float.{Float}
use zano_shadow_sim.Distributor.{Agent, Miner, Md, Env}
use zano_shadow_sim.Distributor.Selection.{select_miner_excluding}
use zano_shadow_sim.Distributor.Send.{Outcome, send_batch_transaction, atomic_to_xmr}
use zano_shadow_sim.Distributor.Send.Laws.{IsReport, send_batch_transaction-IsReport}
use zano_shadow_sim.Distributor.Run.Cycle.{fit_batch_to_unlocked_balance, try_miners}

take-all : (n : ℕ) (batch : List Agent) → length batch ≤ n → take n batch ≡ batch
take-all zero [] h = refl
take-all (suc n) [] h = refl
take-all zero (a ∷ batch) h = absurd (omega arith)
take-all (suc n) (a ∷ batch) h = ap (λ t. a ∷ t) (take-all n batch (omega arith))

module _ {D : Float} (E : Env D) (md : Md D) where
  -- What a recipient gets.
  abbrev per_recipient : D.F
  per_recipient = D.mul (D.of_ℕ md.md_out_per_tx) md.md_output_amount

  -- How many recipients can be paid out of the unlocked balance less five per cent.
  abbrev pub max_fit : Option ℕ → ℕ
  max_fit info = D.to_int (
      D.floor_div
        (D.div (atomic_to_xmr D (elim info [ none ↦ 0 | some n ↦ n ]))
          (D.div (D.of_ℕ 105) (D.of_ℕ 100)))
        (D.mul (D.of_ℕ md.md_out_per_tx) md.md_output_amount))

  -- The batch as it is, where the wallet cannot be asked or a recipient gets nothing, and as many of
  -- its first agents as the balance can pay otherwise.
  unfoldable pub IsFit : Result (Option ℕ) → List Agent → List Agent → Type 0
  IsFit (err message) batch sized = sized ≡ batch
  IsFit (ok info) batch sized = sized ≡ (
      if D.le (D.mul (D.of_ℕ md.md_out_per_tx) md.md_output_amount) (D.of_ℕ 0)
      then batch
      else take (max_fit info) batch)

  not_zero : (n : ℕ) → (suc n == 0) ≡ false
  not_zero n = ground arith

  cut_to : List Agent → ℕ → E.World → List Agent × E.World
  cut_to batch n w = if n == 0 then ([], w) else (take n batch, w)

  cut_to-take : (batch : List Agent) (n : ℕ) (w : E.World) → (cut_to batch n w).0 ≡ take n batch
  unfolding cut_to
  cut_to-take batch zero w = refl
  cut_to-take batch (suc n) w = rw (not_zero n) refl

  fit_to : List Agent → ℕ → E.World → List Agent × E.World
  unfolding cut_to
  fit_to batch n w = if leb (length batch) n then (batch, w) else cut_to batch n w

  fit_to-take : (batch : List Agent) (n : ℕ) (w : E.World) → (fit_to batch n w).0 ≡ take n batch
  unfolding fit_to
  fit_to-take batch n w = elim (Bool-cases (leb (length batch) n)) [
    | inl holds ↦ rw holds (sym (take-all n batch (ground arith)))
    | inr fails ↦ rw fails (cut_to-take batch n w)
  ]

  if-fst :
      (b : Bool) (x y : List Agent × E.World) (s : List Agent)
      → y.0 ≡ s
      → (if b then x else y).0 ≡ (if b then x.0 else s)
  if-fst true x y s h = refl
  if-fst false x y s h = h

  fit_batch_to_unlocked_balance-IsFit :
      (m : Miner) (batch : List Agent) (w : E.World)
      → IsFit (E.get_balance m w).0 batch (fit_batch_to_unlocked_balance E md m batch w).0
  unfolding fit_batch_to_unlocked_balance IsFit
  fit_batch_to_unlocked_balance-IsFit m batch w = elim (Result-cases (E.get_balance m w).0) [
    | inr (message, e) ↦ rw (e, fit_batch_to_unlocked_balance) refl
    | inl (info, e) ↦
        rw (e, fit_batch_to_unlocked_balance)
          (if-fst (D.le per_recipient (D.of_ℕ 0)) (batch, (E.get_balance m w).1) _ _
            (unfold fit_to cut_to in fit_to-take batch (max_fit info) (E.get_balance m w).1))
  ]

  -- The agents that a miner can pay, as its wallet answers once the miner has been selected.
  abbrev pub AreAffordable : List Agent → List Agent → Type 0
  AreAffordable batch sized =
      (exhausted : List String) × (w : E.World) × (m : Miner) × ((select_miner_excluding E md
          exhausted w).0
        ≡ some m)
      × IsFit (E.get_balance m (E.refresh m (select_miner_excluding E md exhausted w).1)).0 batch
          sized

  -- The outcome of a cycle: a successful report on the agents of its batch that can be paid.
  abbrev pub IsPaid : List Agent → Option Outcome → Type 0
  IsPaid batch none = Unit
  IsPaid batch (some o) =
      (o.success ≡ true) × (sized : List Agent) × AreAffordable batch sized × IsReport sized o

  IsPaid-if :
      (batch : List Agent) (b : Bool) (x y : Option Outcome × E.World)
      → (b ≡ true → IsPaid batch x.0)
      → IsPaid batch y.0
      → IsPaid batch (if b then x else y).0
  IsPaid-if batch true x y p q = p refl
  IsPaid-if batch false x y p q = q

  -- Whatever the wallets answer, the outcome of a funding cycle's failover, where there is one,
  -- is a success whose report funds nobody twice, and names each of some agents and only these:
  -- a selected miner's batch, cut to as many of its first agents as the unlocked balance less
  -- five per cent can pay, or whole where asking the miner's wallet fails or a recipient gets
  -- nothing.
  pub try_miners-IsPaid :
      (left : ℕ) (exhausted : List String) (batch : List Agent) (w : E.World)
      → IsPaid batch (try_miners E left exhausted md batch w).0
  unfolding try_miners
  try_miners-IsPaid zero exhausted batch w = tt
  try_miners-IsPaid (suc left) exhausted batch w =
      let s = select_miner_excluding E md exhausted w in
      elim (Option-cases s.0) [
        | inl e ↦ rw (e, try_miners) tt
        | inr (m, e) ↦
            let sized = fit_batch_to_unlocked_balance E md m batch (E.refresh m s.1) in
            let sent = send_batch_transaction E md m sized.0 sized.1 in
            let next = add m.agent_id exhausted in
            rw (e, try_miners)
              (IsPaid-if batch (is_empty sized.0) _ _
                (λ _. try_miners-IsPaid left next batch sized.1)
                (IsPaid-if batch sent.0.success _ _
                  (λ good. (
                    good,
                    sized.0,
                    (
                      exhausted,
                      w,
                      m,
                      e,
                      fit_batch_to_unlocked_balance-IsFit m batch (E.refresh m s.1),
                    ),
                    send_batch_transaction-IsReport E md m sized.0 sized.1,
                  ))
                  (try_miners-IsPaid left next batch sent.1)))
      ]

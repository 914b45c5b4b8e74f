-- ===== src/Distributor/Selection/Laws.antt =====
-- Which miners `_select_miner_excluding` of agents/miner_distributor/agent.py may select.
use zano_shadow_sim.Base.{
  All-get_elem?, ℕ, suc, ◌+◌, ◌<◌, ◌≡◌, refl, ap, ◌∙◌, Bool, true, false, not, ◌&&◌, Option, none,
  some, List, [], ◌∷◌, map, String, ◌==◌, str_eq, get_elem?, get_elem?-of_lt, length, length-map,
  is_empty, sum, sort_by, contains, All, All-sort_by, length-sort_by, arith, Bool-cases, inl, inr,
}
use zano_shadow_sim.Float.{Float}
use zano_shadow_sim.Distributor.{Miner, Strategy, weighted, balance, random, Md, Env, DrawsInRange}
use zano_shadow_sim.Distributor.Selection.{
  cumulative, winner_index, eligible, choose, select_miner_by_weight, select_miner_by_balance,
  by_strategy, select_miner_excluding,
}

-- What is required of a miner: an address, and that it is not excluded.
abbrev pub MayPay : List String → Miner → Type 0
MayPay excluded m = (str_eq m.wallet_address "" ≡ false) × (contains m.agent_id excluded ≡ false)

pos_of_not_empty : (miners : List Miner) → is_empty miners ≡ false → 0 < length miners
pos_of_not_empty [] h = cc
pos_of_not_empty (m ∷ miners) h = omega arith

-- The miner stands in the list.
abbrev pub IsAmong : List Miner → Miner → Type 0
IsAmong miners m = (i : ℕ) × (get_elem? miners i ≡ some m)

eligible_sound :
    (P : Miner → Type 0) (excluded : List String) (miners : List Miner)
    → All P miners
    → All (λ m. MayPay excluded m × P m) (eligible excluded miners)
unfolding eligible
eligible_sound P excluded [] ps = tt
eligible_sound P excluded (m ∷ miners) (p, ps) =
    let rest = eligible_sound P excluded miners ps in
    elim (Bool-cases (not (str_eq m.wallet_address "") && not (contains m.agent_id excluded))) [
      | inl e ↦ rw e ((ground arith, p), rest)
      | inr e ↦ rw e rest
    ]

eligible_complete :
    (excluded : List String) (miners : List Miner)
    → is_empty (eligible excluded miners) ≡ true
    → All (λ m. ¬ MayPay excluded m) miners
unfolding eligible
eligible_complete excluded [] h = tt
eligible_complete excluded (m ∷ miners) h =
    elim (Bool-cases (not (str_eq m.wallet_address "") && not (contains m.agent_id excluded))) [
      | inl e ↦ cc (rw e at h)
      | inr e ↦ ((λ p. ground arith), eligible_complete excluded miners (rw e at h))
    ]

IsAmong-self : (miners : List Miner) → All (IsAmong miners) miners
IsAmong-self [] = tt
IsAmong-self (m ∷ miners) = ((0, refl), All-shift miners (IsAmong-self miners))
  where
    All-shift : (ms : List Miner) → All (IsAmong miners) ms → All (IsAmong (m ∷ miners)) ms
    All-shift [] ps = tt
    All-shift (x ∷ ms) ((i, e), ps) = ((suc i, e), All-shift ms ps)

length-cumulative :
    (total : ℕ) (weights : List ℕ) → length (cumulative total weights) ≡ length weights
unfolding cumulative
length-cumulative total [] = refl
length-cumulative total (x ∷ weights) = ap suc (length-cumulative (total + x) weights)

winner_index-lt :
    (reached : ℕ → Bool) (i : ℕ) (weights : List ℕ)
    → 0 < i + length weights
    → winner_index reached i weights < i + length weights
unfolding winner_index
winner_index-lt reached i [] h = omega arith
winner_index-lt reached i (x ∷ weights) h = ground (arith, winner_index-lt reached (i + 1) weights)

-- Some miner of the list is chosen.
abbrev Chooses : List Miner → Option Miner → Type 0
Chooses miners o = (i : ℕ) × (m : Miner) × (o ≡ some m) × (get_elem? miners i ≡ some m)

module _ {D : Float} (E : Env D) (R : DrawsInRange E) where
  choose-Chooses :
      (miners : List Miner) (w : E.World) → 0 < length miners → Chooses miners (choose E miners w).0
  unfolding choose
  choose-Chooses miners w h =
      let i = (E.choice (length miners) w).0 in
      let (m, e) = get_elem?-of_lt miners i (R.choice_lt (length miners) w h) in (i, m, e, e)

  by_weight-Chooses :
      (miners : List Miner) (w : E.World)
      → 0 < length miners
      → Chooses miners (select_miner_by_weight E miners w).0
  unfolding select_miner_by_weight
  by_weight-Chooses miners w h =
      let weights = map (λ (m : Miner). m.weight) miners in
      let reached = λ (c : ℕ). D.le (E.uniform (sum weights) w).0 (D.of_ℕ c) in
      let i = winner_index reached 0 (cumulative 0 weights) in
      let size : length (cumulative 0 weights) ≡ length miners =
        length-cumulative 0 weights ∙ length-map _ miners in
      let (m, e) =
        get_elem?-of_lt miners i
          (omega (arith, winner_index-lt reached 0 (cumulative 0 weights))) in
      elim (Bool-cases (sum weights == 0)) [
        | inl z ↦ rw z (choose-Chooses miners w h)
        | inr z ↦ rw z (i, m, e, e)
      ]

  by_strategy-Chooses :
      (s : Strategy) (miners : List Miner) (w : E.World)
      → 0 < length miners
      → Chooses miners (by_strategy E s miners w).0
  unfolding by_strategy select_miner_by_balance
  by_strategy-Chooses weighted miners w h = by_weight-Chooses miners w h
  by_strategy-Chooses balance miners w h = choose-Chooses miners w h
  by_strategy-Chooses random miners w h = choose-Chooses miners w h

-- What a selection promises: a miner of the list that may pay, or that none may.
abbrev pub IsSelection : List String → List Miner → Option Miner → Type 0
IsSelection excluded miners none = All (λ m. ¬ MayPay excluded m) miners
IsSelection excluded miners (some m) = MayPay excluded m × IsAmong miners m

Chooses-IsSelection :
    (excluded : List String) (miners among : List Miner) (o : Option Miner)
    → All (λ m. MayPay excluded m × IsAmong miners m) among
    → Chooses among o
    → IsSelection excluded miners o
Chooses-IsSelection excluded miners among o ps (i, m, e, at) =
    rw e (All-get_elem? _ among i m ps at)

module _ {D : Float} (E : Env D) (R : DrawsInRange E) where
  -- Where the random choice draws an index of the list, the selected miner under every strategy
  -- is one of the agent's, has an address and is not excluded, and there is no selection only if
  -- no miner qualifies.
  pub select_miner_excluding-IsSelection :
      (md : Md D) (excluded : List String) (w : E.World)
      → IsSelection excluded md.miners (select_miner_excluding E md excluded w).0
  unfolding select_miner_excluding
  select_miner_excluding-IsSelection md excluded w =
      let among = sort_by (λ (m : Miner). m.agent_id) (eligible excluded md.miners) in
      elim (Bool-cases (is_empty (eligible excluded md.miners))) [
        | inl e ↦ rw e (eligible_complete excluded md.miners e)
        | inr e ↦ rw e (
            Chooses-IsSelection excluded md.miners among _
              (All-sort_by _ _ _
                (eligible_sound (IsAmong md.miners) excluded md.miners (IsAmong-self md.miners)))
              (by_strategy-Chooses E R md.miner_selection_strategy among w
                (rw length-sort_by (pos_of_not_empty _ e))))
      ]

-- ===== src/Distributor/Selection.antt =====
-- Which miner pays: agents/miner_distributor/selection.py and `_select_miner_excluding` of agent.py.
pub mod Laws
use zano_shadow_sim.Base.{
  ℕ, zero, suc, ◌+◌, Bool, true, false, not, ◌&&◌, Option, none, some, List, [], ◌∷◌, map, String,
  ◌==◌, str_eq, if◌then◌else◌, get_elem?, length, is_empty, sum, sort_by, contains,
}
use zano_shadow_sim.Float.{Float}
use zano_shadow_sim.Distributor.{Miner, Strategy, weighted, balance, random, Md, Env}

-- `cumulative_weights`, from the sum so far
unfoldable pub cumulative : ℕ → List ℕ → List ℕ
cumulative total [] = []
cumulative total (weight ∷ weights) = (total + weight) ∷ cumulative (total + weight) weights

-- The index of the first weight that `reached` holds of, counted from `i`; 0 if there is none.
unfoldable pub winner_index : (ℕ → Bool) → ℕ → List ℕ → ℕ
winner_index reached i [] = 0
winner_index reached i (weight ∷ weights) =
    let later = winner_index reached (i + 1) weights in if reached weight then i else later

-- The miners with an address that are not excluded.
unfoldable pub eligible : List String → List Miner → List Miner
eligible excluded [] = []
eligible excluded (m ∷ miners) =
    let rest = eligible excluded miners in
    if not (str_eq m.wallet_address "") && not (contains m.agent_id excluded)
    then m ∷ rest
    else rest

module _ {D : Float} (E : Env D) where
  open E use {World, choice, uniform}

  -- `random.choice(miners)`
  unfoldable pub choose : List Miner → World → Option Miner × World
  choose miners w = let (i, w') = choice (length miners) w in (get_elem? miners i, w')

  unfoldable pub select_miner_by_weight : List Miner → World → Option Miner × World
  select_miner_by_weight miners w =
      let weights = map (λ (m : Miner). m.weight) miners in
      let (random_value, w') = uniform (sum weights) w in
      let reached = λ (c : ℕ). D.le random_value (D.of_ℕ c) in
      if sum weights == 0
      then choose miners w
      else (get_elem? miners (winner_index reached 0 (cumulative 0 weights)), w')

  -- Not implemented by balance yet: a random choice.
  unfoldable pub select_miner_by_balance : List Miner → World → Option Miner × World
  select_miner_by_balance miners w = choose miners w

  -- The dispatch on the strategy.
  unfoldable pub by_strategy : Strategy → List Miner → World → Option Miner × World
  by_strategy weighted miners w = select_miner_by_weight miners w
  by_strategy balance miners w = select_miner_by_balance miners w
  by_strategy random miners w = choose miners w

  unfoldable pub select_miner_excluding : Md D → List String → World → Option Miner × World
  select_miner_excluding md excluded w =
      let available_miners = eligible excluded md.miners in
      if is_empty available_miners
      then (none, w)
      else by_strategy md.miner_selection_strategy
          (sort_by (λ (m : Miner). m.agent_id) available_miners) w

-- ===== src/Monitor/Health/Laws.antt =====
-- What the sums of the network's health amount to.
use mathlib.Core.List.{append-nil, append_assoc}
use zano_shadow_sim.Base.{
  ℕ, ◌+◌, ◌≡◌, refl, sym, ap, ◌∙◌, Bool, true, false, ◌||◌, List, [], ◌∷◌, ◌++◌, String, arith,
  length, ltb, if◌then◌else◌,
}
use zano_shadow_sim.Base.Dict.{Dict}
use zano_shadow_sim.Float.{Float}
use zano_shadow_sim.Validator.Integers.Laws.{AreExtremes, least-greatest-AreExtremes}
use zano_shadow_sim.Monitor.Health.{
  NodeData, Health, with_sync, with_mining, with_height, with_balance, with_node, with_nodes,
  analyze_network_health, min_height, max_height, new_health,
}

module _ (D : Float) where
  -- How many nodes pass a test, and what a number of theirs adds up to.
  pub how_many : (NodeData D → Bool) → Dict (NodeData D) → ℕ
  how_many p [] = 0
  how_many p ((node_id, node) ∷ nodes) = (if p node then 1 else 0) + how_many p nodes

  pub total : (NodeData D → ℕ) → Dict (NodeData D) → ℕ
  total f [] = 0
  total f ((node_id, node) ∷ nodes) = f node + total f nodes

  abbrev pub mines : NodeData D → Bool
  mines node = node.is_actively_mining || node.is_registered_miner

  -- The heights that are known, and the hash rates of the miners.
  pub heights_of : Dict (NodeData D) → List ℕ
  heights_of [] = []
  heights_of ((node_id, node) ∷ nodes) =
      (if ltb 0 node.height then node.height ∷ [] else []) ++ heights_of nodes

  pub hashrates_of : Dict (NodeData D) → List D.F
  hashrates_of [] = []
  hashrates_of ((node_id, node) ∷ nodes) =
      (if mines node then node.mining_hashrate ∷ [] else []) ++ hashrates_of nodes

  abbrev pub weight : NodeData D → ℕ
  weight node = if mines node then node.mining_weight else 0

  abbrev pub unlocked : NodeData D → ℕ
  unlocked node = if ltb 0 node.balance then node.unlocked_balance else 0

  -- What the nodes add to the sums.
  record Adds (nodes : Dict (NodeData D)) (m m' : Health D) : Type 0 where
    synced : m'.synced_nodes ≡ m.synced_nodes + how_many (λ node. node.synced) nodes
    active : m'.active_miners ≡ m.active_miners + how_many mines nodes
    weighed : m'.total_mining_weight ≡ m.total_mining_weight + total weight nodes
    connected : m'.total_connections ≡ m.total_connections + total (λ node. node.connections) nodes
    pooled : m'.total_pool_size ≡ m.total_pool_size + total (λ node. node.pool_size) nodes
    owned : m'.total_balance ≡ m.total_balance + total (λ node. node.balance) nodes
    free : m'.total_unlocked_balance ≡ m.total_unlocked_balance + total unlocked nodes
    high : m'.heights ≡ m.heights ++ heights_of nodes
    rated : m'.mining_hashrates ≡ m.mining_hashrates ++ hashrates_of nodes

  if-append :
      {A : Type 0} (b : Bool) (x : A) (xs rest : List A)
      → (if b then xs ++ x ∷ [] else xs) ++ rest ≡ xs ++ ((if b then x ∷ [] else []) ++ rest)
  if-append true x xs rest = append_assoc xs (x ∷ []) rest
  if-append false x xs rest = refl

  heights-with_node :
      (node_id : String) (node : NodeData D) (m : Health D)
      → (with_node D node_id node m).heights
        ≡ (if ltb 0 node.height then m.heights ++ node.height ∷ [] else m.heights)
  unfolding with_node with_sync with_mining with_height with_balance
  heights-with_node node_id node m = ground arith

  hashrates-with_node :
      (node_id : String) (node : NodeData D) (m : Health D)
      → (with_node D node_id node m).mining_hashrates ≡ (
          if mines node
          then m.mining_hashrates ++ node.mining_hashrate ∷ []
          else m.mining_hashrates)
  unfolding with_node with_sync with_mining with_height with_balance
  hashrates-with_node node_id node m = ground arith

  with_nodes-Adds : (nodes : Dict (NodeData D)) (m : Health D) → Adds nodes m (with_nodes D nodes m)
  unfolding with_nodes how_many total heights_of hashrates_of
  with_nodes-Adds [] m = record {
    synced = omega arith;
    active = omega arith;
    weighed = omega arith;
    connected = omega arith;
    pooled = omega arith;
    owned = omega arith;
    free = omega arith;
    high = sym (append-nil m.heights);
    rated = sym (append-nil m.mining_hashrates);
  }
  with_nodes-Adds ((node_id, node) ∷ nodes) m =
      let h = with_nodes-Adds nodes (with_node D node_id node m) in
      unfold with_node with_sync with_mining with_height with_balance in
      record {
        synced = ground (arith, h.synced);
        active = ground (arith, h.active);
        weighed = ground (arith, h.weighed);
        connected = ground (arith, h.connected);
        pooled = ground (arith, h.pooled);
        owned = ground (arith, h.owned);
        free = ground (arith, h.free);
        high =
            h.high
            ∙ ap (λ hs. hs ++ heights_of nodes) (heights-with_node node_id node m)
            ∙ if-append (ltb 0 node.height) node.height m.heights (heights_of nodes);
        rated =
            h.rated
            ∙ ap (λ rs. rs ++ hashrates_of nodes) (hashrates-with_node node_id node m)
            ∙ if-append (mines node) node.mining_hashrate m.mining_hashrates (hashrates_of nodes);
      }

  -- The sums are those of the nodes.
  pub record IsSummed (nodes : Dict (NodeData D)) (m : Health D) : Type 0 where
    pub synced : m.synced_nodes ≡ how_many (λ node. node.synced) nodes
    pub active : m.active_miners ≡ how_many mines nodes
    pub weighed : m.total_mining_weight ≡ total weight nodes
    pub connected : m.total_connections ≡ total (λ node. node.connections) nodes
    pub pooled : m.total_pool_size ≡ total (λ node. node.pool_size) nodes
    pub owned : m.total_balance ≡ total (λ node. node.balance) nodes
    pub free : m.total_unlocked_balance ≡ total unlocked nodes
    pub high : m.heights ≡ heights_of nodes
    pub rated : m.mining_hashrates ≡ hashrates_of nodes

  -- The lowest and the highest height, or 0 where none is known.
  unfoldable pub AreHeights : ℕ → ℕ → List ℕ → Type 0
  AreHeights lo hi [] = (lo ≡ 0) × (hi ≡ 0)
  AreHeights lo hi (h ∷ heights) = AreExtremes lo hi (h ∷ heights)

  heights-AreHeights :
      (heights : List ℕ) → AreHeights (min_height D heights) (max_height D heights) heights
  unfolding min_height max_height AreHeights
  heights-AreHeights [] = (refl, refl)
  heights-AreHeights (h ∷ hs) = least-greatest-AreExtremes h hs

  -- Of the collected nodes, as many are counted as synced as are, and as many as active miners
  -- as mine or are registered miners; the weights are summed over these, the unlocked balances
  -- over the nodes with a balance, and balances, connections and pools over all nodes; the hash
  -- rates are those of the miners and the heights those above 0, in order, and the lowest and
  -- the highest height are among the heights and bound them, or are 0 where there is none.
  pub analyze_network_health-IsSummed :
      (nodes : Dict (NodeData D))
      → IsSummed nodes (analyze_network_health D nodes)
        × AreHeights
            (min_height D (analyze_network_health D nodes).heights)
            (max_height D (analyze_network_health D nodes).heights)
            (analyze_network_health D nodes).heights
  unfolding analyze_network_health
  analyze_network_health-IsSummed nodes =
      let m = with_nodes D nodes (new_health D (length nodes)) in
      let h = with_nodes-Adds nodes (new_health D (length nodes)) in
      (
        record {
          synced = omega (arith, h.synced);
          active = omega (arith, h.active);
          weighed = omega (arith, h.weighed);
          connected = omega (arith, h.connected);
          pooled = omega (arith, h.pooled);
          owned = omega (arith, h.owned);
          free = omega (arith, h.free);
          high = h.high;
          rated = h.rated;
        },
        heights-AreHeights m.heights,
      )

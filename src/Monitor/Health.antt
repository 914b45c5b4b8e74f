-- ===== src/Monitor/Health.antt =====
-- `_analyze_network_health` of agents/simulation_monitor/agent.py.
pub mod Laws
use zano_shadow_sim.Base.{
  ℕ, ◌+◌, Bool, true, false, ◌||◌, Option, none, some, List, [], ◌∷◌, ◌++◌, String, ltb,
  if◌then◌else◌, length, sum, is_empty,
}
use zano_shadow_sim.Base.Dict.{Dict}
use zano_shadow_sim.Float.{Float}
use zano_shadow_sim.Validator.Integers.{least, greatest}
use zano_shadow_sim.Monitor.{Blocks, NetworkMetrics}

module _ (D : Float) where
  -- What was collected of a node; a key that is missing has its default.
  pub record NodeData : Type 0 where
    pub synced : Bool
    pub is_actively_mining : Bool
    pub is_registered_miner : Bool
    pub mining_weight : ℕ
    pub mining_hashrate : D.F
    pub height : ℕ
    pub connections : ℕ
    pub daemon_error : Option String
    pub balance : ℕ
    pub unlocked_balance : ℕ
    pub pool_size : ℕ
    pub wallet_error : Option String

  pub record Health : Type 0 where
    pub total_nodes : ℕ
    pub synced_nodes : ℕ
    pub active_miners : ℕ
    pub total_connections : ℕ
    pub heights : List ℕ
    pub mining_hashrates : List D.F
    pub mining_weights : List ℕ
    pub total_mining_weight : ℕ
    pub total_balance : ℕ
    pub total_unlocked_balance : ℕ
    pub total_pool_size : ℕ
    pub errors : List String

  abbrev pub new_health : ℕ → Health
  new_health n = record {
    total_nodes = n;
    synced_nodes = 0;
    active_miners = 0;
    total_connections = 0;
    heights = [];
    mining_hashrates = [];
    mining_weights = [];
    total_mining_weight = 0;
    total_balance = 0;
    total_unlocked_balance = 0;
    total_pool_size = 0;
    errors = [];
  }

  unfoldable pub with_sync : NodeData → Health → Health
  with_sync node m = if node.synced then record m { synced_nodes = m.synced_nodes + 1 } else m

  unfoldable pub with_mining : NodeData → Health → Health
  with_mining node m =
      if node.is_actively_mining || node.is_registered_miner
      then record m {
        active_miners = m.active_miners + 1;
        mining_hashrates = m.mining_hashrates ++ node.mining_hashrate ∷ [];
        mining_weights = m.mining_weights ++ node.mining_weight ∷ [];
        total_mining_weight = m.total_mining_weight + node.mining_weight;
      }
      else m

  unfoldable pub with_height : NodeData → Health → Health
  with_height node m =
      if ltb 0 node.height then record m { heights = m.heights ++ node.height ∷ [] } else m

  unfoldable pub with_balance : NodeData → Health → Health
  with_balance node m =
      if ltb 0 node.balance
      then record m {
        total_balance = m.total_balance + node.balance;
        total_unlocked_balance = m.total_unlocked_balance + node.unlocked_balance;
      }
      else m

  -- The node's id stands for the error's text.
  abbrev pub error_of : String → Option String → List String
  error_of node_id none = []
  error_of node_id (some e) = node_id ∷ []

  -- One node of the loop; connections and pools of 0 add nothing.
  unfoldable pub with_node : String → NodeData → Health → Health
  unfolding with_sync with_mining with_height with_balance
  with_node node_id node m0 =
      let m = with_balance node (with_height node (with_mining node (with_sync node m0))) in
      record m {
        total_connections = m.total_connections + node.connections;
        total_pool_size = m.total_pool_size + node.pool_size;
        errors =
            m.errors ++ error_of node_id node.daemon_error ++ error_of node_id node.wallet_error;
      }

  unfoldable pub with_nodes : Dict NodeData → Health → Health
  unfolding with_node
  with_nodes [] m = m
  with_nodes ((node_id, node) ∷ nodes) m = with_nodes nodes (with_node node_id node m)

  unfoldable pub analyze_network_health : Dict NodeData → Health
  unfolding with_nodes
  analyze_network_health node_data = with_nodes node_data (new_health (length node_data))

  -- The lowest and the highest of the heights, or 0.
  unfoldable pub min_height : List ℕ → ℕ
  unfolding least
  min_height [] = 0
  min_height (h ∷ heights) = least h heights

  unfoldable pub max_height : List ℕ → ℕ
  unfolding greatest
  max_height [] = 0
  max_height (h ∷ heights) = greatest h heights

  -- `synced_nodes / total_nodes * 100`
  unfoldable pub sync_percentage : Health → D.F
  sync_percentage m =
      if ltb 0 m.total_nodes
      then D.mul (D.div (D.of_ℕ m.synced_nodes) (D.of_ℕ m.total_nodes)) (D.of_ℕ 100)
      else D.of_ℕ 0

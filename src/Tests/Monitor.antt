-- ===== src/Tests/Monitor.antt =====
-- Examples of the laws of the simulation monitor.
use zano_shadow_sim.Base.{
  true, false, none, some, ℕ, List, [], ◌∷◌, String, Result, ok, err, ltb, if◌then◌else◌,
}
use zano_shadow_sim.Monitor.{Blocks, TransactionStats}
use zano_shadow_sim.Base.Dict.{Dict}
use zano_shadow_sim.Float.Ratio.{ratios}
use zano_shadow_sim.Monitor.Health.{NodeData, analyze_network_health, min_height, max_height}
use zano_shadow_sim.Monitor.Health.Laws.{IsSummed, AreHeights, analyze_network_health-IsSummed}

abbrev two_blocks : Blocks
two_blocks = record {
  blocks_mined_by_height = (5, "miner-001") ∷ (6, "miner-002") ∷ [];
  recent_blocks_mined = ("miner-001", (5, 600) ∷ []) ∷ ("miner-002", (6, 720) ∷ []) ∷ [];
  total_blocks_mined_by_agent = ("miner-001", 1) ∷ ("miner-002", 1) ∷ [];
}

abbrev at_three : TransactionStats
at_three = record {
  last_processed_height = 3;
  tx_to_block_mapping = [];
  included_txs = [];
  total_in_blocks = 0;
}

-- A daemon that has no blocks from 6 on.
abbrev until_five : ℕ → Result (List String)
until_five height = if ltb height 6 then ok ("aa" ∷ []) else err "no such block"

abbrev mining_node : NodeData ratios
mining_node = record {
  synced = true;
  is_actively_mining = true;
  is_registered_miner = true;
  mining_weight = 10;
  mining_hashrate = ratios.of_ℕ 100;
  height = 120;
  connections = 8;
  daemon_error = none;
  balance = 5000;
  unlocked_balance = 2000;
  pool_size = 3;
  wallet_error = none;
}

abbrev two_nodes : Dict (NodeData ratios)
two_nodes =
    ("miner-001", mining_node)
    ∷ (
      "user-001",
      record mining_node {
        is_actively_mining = false;
        is_registered_miner = false;
        height = 118;
        wallet_error = some "busy";
      },
    )
    ∷ []

analyze_network_health-IsSummed_example :
    IsSummed ratios two_nodes (analyze_network_health ratios two_nodes)
    × AreHeights ratios
        (min_height ratios (analyze_network_health ratios two_nodes).heights)
        (max_height ratios (analyze_network_health ratios two_nodes).heights)
        (analyze_network_health ratios two_nodes).heights
analyze_network_health-IsSummed_example = analyze_network_health-IsSummed ratios two_nodes

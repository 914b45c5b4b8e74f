-- ===== src/Monitor.antt =====
-- What agents/simulation_monitor/agent.py counts: mined blocks by miner, and the transactions in
-- blocks; and the alerts of agents/simulation_monitor/alerts.py.
pub mod Laws
pub mod Health
use zano_shadow_sim.Base.{
  ℕ, zero, suc, ◌+◌, ◌-◌, max, Bool, true, false, not, ◌&&◌, Option, none, some, List, [], ◌∷◌,
  ◌++◌, String, ltb, leb, ◌==◌, if◌then◌else◌, is_empty, length, update, Result, ok, err,
}
use zano_shadow_sim.Base.Dict.{Dict, lookup, insert}
use zano_shadow_sim.Float.{Float}

-- The attributes on mined blocks: who is credited with a height, the recent blocks of an agent with
-- their times, and its total.
pub record Blocks : Type 0 where
  pub blocks_mined_by_height : List (ℕ × String)
  pub recent_blocks_mined : Dict (List (ℕ × ℕ))
  pub total_blocks_mined_by_agent : Dict ℕ

-- `blocks_mined_by_height.get(height)`
unfoldable pub credited : ℕ → List (ℕ × String) → Option String
credited height [] = none
credited height ((h, agent_id) ∷ blocks) =
    if h == height then some agent_id else credited height blocks

-- The blocks after the cutoff; `current_time - 600` is compared without a subtraction.
unfoldable pub recent_only : ℕ → List (ℕ × ℕ) → List (ℕ × ℕ)
recent_only current_time [] = []
recent_only current_time ((h, t) ∷ blocks) =
    let rest = recent_only current_time blocks in
    if ltb current_time (t + 600) then (h, t) ∷ rest else rest

-- `d.get(k, 0)`
abbrev pub count_of : Option ℕ → ℕ
count_of none = 0
count_of (some n) = n

abbrev pub blocks_of : Option (List (ℕ × ℕ)) → List (ℕ × ℕ)
blocks_of none = []
blocks_of (some blocks) = blocks

unfoldable pub record_block_mined : String → ℕ → ℕ → Blocks → Blocks
unfolding credited recent_only
record_block_mined agent_id height current_time b =
    let recent = blocks_of (lookup agent_id b.recent_blocks_mined) ++ (height, current_time) ∷ [] in
    let total = count_of (lookup agent_id b.total_blocks_mined_by_agent) in
    let recorded = record b {
      blocks_mined_by_height = b.blocks_mined_by_height ++ (height, agent_id) ∷ [];
      recent_blocks_mined = insert agent_id (recent_only current_time recent) b.recent_blocks_mined;
      total_blocks_mined_by_agent = insert agent_id (total + 1) b.total_blocks_mined_by_agent;
    } in
    elim (credited height b.blocks_mined_by_height) [ some other ↦ b | none ↦ recorded ]

-- `transaction_stats`, as far as blocks are concerned
pub record TransactionStats : Type 0 where
  pub last_processed_height : ℕ
  pub tx_to_block_mapping : List (ℕ × List String)
  pub included_txs : List String
  pub total_in_blocks : ℕ

-- One block's hashes.
unfoldable pub include_block : ℕ → List String → TransactionStats → TransactionStats
include_block height tx_hashes s =
    let included = record s {
      tx_to_block_mapping = s.tx_to_block_mapping ++ (height, tx_hashes) ∷ [];
      included_txs = update tx_hashes s.included_txs;
    } in
    record (if is_empty tx_hashes then s else included) { last_processed_height = height }

-- The loop over so many heights from `height` on; `get_block` is the daemon, `err` an exception.
unfoldable pub process_blocks :
    (ℕ → Result (List String)) → ℕ → ℕ → TransactionStats → TransactionStats
unfolding include_block
process_blocks get_block zero height s = s
process_blocks get_block (suc left) height s = elim (get_block height) [
  | err message ↦ s
  | ok tx_hashes ↦ process_blocks get_block left (height + 1) (include_block height tx_hashes s)
]

-- `_extract_transactions_from_blocks`, where there is a reference daemon
unfoldable pub extract_transactions_from_blocks :
    (ℕ → Result (List String)) → ℕ → TransactionStats → TransactionStats
unfolding process_blocks
extract_transactions_from_blocks get_block current_height s =
    let start_height = max 2 (s.last_processed_height + 1) in
    let processed = process_blocks get_block (current_height + 1 - start_height) start_height s in
    if ltb current_height start_height
    then s
    else record processed { total_in_blocks = length processed.included_txs }

-- The metrics that `check_alerts` reads.
pub record NetworkMetrics (D : Float) : Type 0 where
  pub sync_percentage : D.F
  pub height_variance : D.F
  pub registered_miners : ℕ
  pub active_miners : ℕ
  pub total_pool_size : ℕ
  pub errors : List String

pub data Severity : Type 0 where
  warning critical : Severity

pub data AlertType : Type 0 where
  sync_issue high_variance no_miners large_pool node_errors : AlertType

-- An alert, without its message.
abbrev pub Alert : Type 0
Alert = AlertType × Severity

-- `alerts.append(...)` under a condition, before the alerts that follow
abbrev pub alert_if : Bool → Alert → List Alert → List Alert
alert_if true a alerts = a ∷ alerts
alert_if false a alerts = alerts

unfoldable pub check_alerts : {D : Float} → NetworkMetrics D → List Alert
check_alerts {D} metrics =
    alert_if (D.lt metrics.sync_percentage (D.of_ℕ 90)) (sync_issue, warning)
      (alert_if (D.lt (D.of_ℕ 10) metrics.height_variance) (high_variance, warning)
        (alert_if (metrics.registered_miners == 0 && metrics.active_miners == 0)
          (no_miners, critical)
          (alert_if (ltb 50 metrics.total_pool_size) (large_pool, warning)
            (alert_if (not (is_empty metrics.errors)) (node_errors, warning) []))))

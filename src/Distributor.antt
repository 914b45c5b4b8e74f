-- ===== src/Distributor.antt =====
-- The miner distributor, agents/miner_distributor/: its data, its state, and what it asks of the
-- wallets, the clock, the random generator and the shared files.
pub mod Selection
pub mod Send
pub mod Funding
pub mod Run
use zano_shadow_sim.Base.{
  ℕ, ◌≤◌, ◌<◌, ◌≡◌, Bool, Option, List, String, Result, true, false, none, [],
}
use zano_shadow_sim.Base.Dict.{Dict}
use zano_shadow_sim.Float.{Float}

-- An attribute as it stands in a registry file.
pub data Attr : Type 0 where
  flag : Bool → Attr
  number : ℕ → Attr
  text : String → Attr
  other : Attr

-- An entry of agent_registry.json. A missing text is "", a missing port 0.
pub record Agent : Type 0 where
  pub id : String
  pub ip_addr : String
  pub wallet_rpc_port : ℕ
  pub wallet_address : String
  pub attributes : Dict Attr

-- An entry of miners.json.
pub record MinerInfo : Type 0 where
  pub ip_addr : String
  pub wallet_address : String
  pub weight : ℕ

-- An item of `self.miners`.
pub record Miner : Type 0 where
  pub agent_id : String
  pub ip_addr : String
  pub wallet_rpc_port : ℕ
  pub wallet_address : String
  pub weight : ℕ

-- initial_funding_status.json
pub record Status : Type 0 where
  pub funded_recipients : List String
  pub failed_recipients : List String
  pub permanently_failed : List String
  pub completed : Bool

-- `empty_funding_status` of agents/miner_distributor/state.py
abbrev pub empty_funding_status : Status
empty_funding_status = record {
  funded_recipients = [];
  failed_recipients = [];
  permanently_failed = [];
  completed = false;
}

pub record Destination : Type 0 where
  pub address : String
  pub amount : ℕ

-- The answer to `transfer_split`.
pub data Reply : Type 0 where
  sent : List String → String → Reply
  raised : List ℕ → Reply

-- The entry that one batch adds to transactions.json: hashes, sender, recipients and outputs.
pub record TxRecord : Type 0 where
  pub tx_hashes : List String
  pub sender_id : String
  pub recipients : List String
  pub num_outputs : ℕ

pub data Strategy : Type 0 where
  weighted balance random : Strategy

-- Who has been funded, who failed for now, who is given up, and the counts of failed lookups.
pub record Books : Type 0 where
  pub funded : List String
  pub failed : List String
  pub permanent : List String
  pub retries : Dict ℕ

-- The agent's attributes. `status` is the content of its status file, which only it writes.
pub record Md (D : Float) : Type 0 where
  pub miners : List Miner
  pub min_transaction_amount : D.F
  pub max_transaction_amount : D.F
  pub miner_selection_strategy : Strategy
  pub max_retries : ℕ
  pub md_n_recipients : ℕ
  pub md_out_per_tx : ℕ
  pub md_output_amount : D.F
  pub balance_check_interval : ℕ
  pub max_wait_time : ℕ
  pub startup_time : ℕ
  pub waiting_for_maturity : Bool
  pub last_balance_check : ℕ
  pub balance_check_attempts : ℕ
  pub initial_funding_completed : Bool
  pub books : Books
  pub funding_cycle_index : ℕ
  pub last_funding_cycle_time : ℕ
  pub md_funding_cycle_interval : ℕ
  pub status : Option Status

-- What is outside of the agent. A `none` for an address and an `err` for a balance are exceptions.
pub record Env (D : Float) : Type 1 where
  pub World : Type 0
  pub now : World → ℕ
  pub sleep : ℕ → World → World
  -- `random.choice` over so many items, and `random.uniform(0, total)`
  pub choice : ℕ → World → ℕ × World
  pub uniform : ℕ → World → D.F × World
  pub agent_registry : World → Option (List Agent)
  pub miner_registry : World → Option (List MinerInfo)
  -- The addresses in {id}_miner_info.json and {id}_user_info.json, "" where there is none.
  pub miner_info_address : String → World → String
  pub user_info_address : String → World → String
  pub get_address : String → ℕ → World → Option String × World
  pub get_balance : Miner → World → Result (Option ℕ) × World
  pub refresh : Miner → World → World
  pub transfer_split : Miner → List Destination → World → Reply × World
  -- Appends to transactions.json; an answer is the text of the exception.
  pub append_shared_list : TxRecord → World → Option (List ℕ) × World

-- `random.choice` draws an index of the list.
pub record DrawsInRange {D : Float} (E : Env D) : Type 0 where
  pub choice_lt : (n : ℕ) (w : E.World) → 0 < n → (E.choice n w).0 < n

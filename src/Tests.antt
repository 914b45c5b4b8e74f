-- ===== src/Tests.antt =====
-- A world of three agents, and states of the miner distributor in it, for the examples.
mod Timing
mod Calibrate
mod Distributor
mod Turns
mod Registry
mod Monitor
mod Shared
mod Validator
mod Expand
mod Generator
mod Yaml
mod Dns
mod Scenario
mod User
use zano_shadow_sim.Base.{
  ℕ, ◌+◌, ◌^◌, ◌*◌, ◌<◌, ◌≡◌, refl, Bool, true, false, Option, none, some, List, [], ◌∷◌, String,
  arith, str_eq, if◌then◌else◌, Result, ok, err,
}
use zano_shadow_sim.Float.{Float}
use zano_shadow_sim.Float.Ratio.{ratios}
use zano_shadow_sim.Distributor.{
  Agent, MinerInfo, Miner, Attr, flag, text, Reply, sent, Books, Md, Env, DrawsInRange, weighted,
}

abbrev pub miner_agent : Agent
miner_agent = record {
  id = "miner-001";
  ip_addr = "10.0.0.1";
  wallet_rpc_port = 18082;
  wallet_address = "";
  attributes = ("is_miner", text "true") ∷ [];
}

abbrev pub alice : Agent
alice = record {
  id = "alice";
  ip_addr = "10.0.0.2";
  wallet_rpc_port = 18082;
  wallet_address = "";
  attributes = ("can_receive_distributions", flag true) ∷ [];
}

abbrev pub bob : Agent
bob = record {
  id = "bob";
  ip_addr = "10.0.0.3";
  wallet_rpc_port = 18082;
  wallet_address = "";
  attributes = ("can_receive_distributions", text "yes") ∷ [];
}

-- Alice answers with her address, and nobody has one in a file. The clock is the world.
abbrev pub village : String → String → Env ratios
village miner_address cached = record {
  World = ℕ;
  now = λ w. w;
  sleep = λ n w. w + n;
  choice = λ n w. (0, w);
  uniform = λ total w. (ratios.of_ℕ 0, w);
  agent_registry = λ w. some (miner_agent ∷ alice ∷ bob ∷ []);
  miner_registry =
      λ w. some (record { ip_addr = "10.0.0.1"; wallet_address = miner_address; weight = 10 } ∷ []);
  miner_info_address = λ id w. "";
  user_info_address = λ id w. cached;
  get_address = λ ip port w. (if str_eq ip "10.0.0.2" then some "4alice" else none, w);
  get_balance = λ m w. (ok (some (500 * 10 ^ 12)), w);
  refresh = λ m w. w;
  transfer_split = λ m destinations w. (sent ("aa" ∷ []) "", w + 1);
  append_shared_list = λ entry w. (none, w);
}

-- The miner's address is registered.
abbrev pub quiet : Env ratios
quiet = village "4miner" ""

-- The miner's address stands in a file that discovery does not read.
abbrev pub hidden : Env ratios
hidden = village "" "4cached"

abbrev pub miner : Miner
miner = record {
  agent_id = "miner-001";
  ip_addr = "10.0.0.1";
  wallet_rpc_port = 18082;
  wallet_address = "4miner";
  weight = 10;
}

abbrev pub no_books : Books
no_books = record { funded = []; failed = []; permanent = []; retries = [] }

abbrev pub fresh : Md ratios
fresh = record {
  miners = miner ∷ [];
  min_transaction_amount = ratios.div (ratios.of_ℕ 1) (ratios.of_ℕ 10);
  max_transaction_amount = ratios.of_ℕ 1;
  miner_selection_strategy = weighted;
  max_retries = 3;
  md_n_recipients = 8;
  md_out_per_tx = 2;
  md_output_amount = ratios.of_ℕ 5;
  balance_check_interval = 30;
  max_wait_time = 7200;
  startup_time = 0;
  waiting_for_maturity = false;
  last_balance_check = 0;
  balance_check_attempts = 0;
  initial_funding_completed = false;
  books = no_books;
  funding_cycle_index = 0;
  last_funding_cycle_time = 0;
  md_funding_cycle_interval = 300;
  status = none;
}

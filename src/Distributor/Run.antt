-- ===== src/Distributor/Run.antt =====
-- The agent's turns: discovery, the maturity gate, the initial funding as a whole, the funding cycle
-- and `run_iteration` of agents/miner_distributor/agent.py.
pub mod Cycle
pub mod Eligible
pub mod Resume
pub mod Untouched
pub mod Turns
pub mod Ends
pub mod Rotation
pub mod Failover
use zano_shadow_sim.Base.{
  ℕ, zero, suc, ◌+◌, ◌*◌, ◌-◌, ◌/◌, ◌%◌, Bool, true, false, not, ◌&&◌, ◌||◌, Option, none, some,
  List, [], ◌∷◌, map, String, ltb, leb, ◌==◌, str_eq, if◌then◌else◌, is_empty, contains, update,
  length, max, take, sort_by, codes, lower, text_eq, get_elem?, add, Result, ok, err,
}
use zano_shadow_sim.Base.Dict.{lookup}
use zano_shadow_sim.Float.{Float}
use zano_shadow_sim.Distributor.{
  Agent, Attr, flag, number, text, other, Miner, MinerInfo, Status, empty_funding_status, Books, Md,
  Env,
}
use zano_shadow_sim.Distributor.Selection.{select_miner_excluding}
use zano_shadow_sim.Distributor.Send.{
  Outcome, ids, is_valid_monero_address, atomic_to_xmr, get_recipient_address,
  send_batch_transaction, usable,
}
use zano_shadow_sim.Distributor.Funding.{
  write_funding_status, finalize_funding_status, batch_recipients, process_funding_batches,
}

-- The text is one of these words.
is_word : List ℕ → List String → Bool
is_word s [] = false
is_word s (w ∷ words) = text_eq s (codes w) || is_word s words

-- `BaseAgent.parse_bool` of agents/base_agent.py, with the default False
unfoldable pub parse_bool : Attr → Bool
unfolding is_word
parse_bool (flag b) = b
parse_bool (number n) = not (n == 0)
parse_bool (text s) = is_word (lower (codes s)) ("true" ∷ "1" ∷ "yes" ∷ "on" ∷ [])
parse_bool other = false

-- `attributes.get(key)`, read as a Boolean
unfoldable pub attribute_flag : String → Agent → Bool
attribute_flag key agent = elim (lookup key agent.attributes) [
  | none ↦ false
  | some a ↦ parse_bool a
]

unfoldable pub read_funding_status : {D : Float} → Md D → Status
read_funding_status md = elim md.status [ none ↦ empty_funding_status | some s ↦ s ]

-- `none`: the funding was completed before. Otherwise the books are those of the status file.
unfoldable pub load_funding_progress : {D : Float} → Md D → Bool × Md D
load_funding_progress md =
    let status = read_funding_status md in
    let loaded = record md {
      books = record md.books {
        funded = update status.funded_recipients [];
        failed = update status.failed_recipients [];
        permanent = update status.permanently_failed md.books.permanent;
      };
    } in
    if status.completed
    then (false, record md { initial_funding_completed = true })
    else (true, loaded)

-- Agents that may receive: not a miner, with a wallet, and marked so.
unfoldable pub is_eligible : List String → Agent → Bool
is_eligible miner_ids agent =
    not (contains agent.id miner_ids)
    && (not (agent.wallet_rpc_port == 0) && attribute_flag "can_receive_distributions" agent)

unfoldable pub all_eligible : List String → List Agent → List Agent
all_eligible miner_ids [] = []
all_eligible miner_ids (a ∷ agents) =
    let rest = all_eligible miner_ids agents in if is_eligible miner_ids a then a ∷ rest else rest

-- Those of them that are neither funded nor given up.
unfoldable pub unfunded_of : Books → List Agent → List Agent
unfunded_of b [] = []
unfunded_of b (a ∷ agents) =
    let rest = unfunded_of b agents in
    if contains a.id b.funded || contains a.id b.permanent then rest else a ∷ rest

-- The recipients to be funded, or `none` where the run stops here.
unfoldable pub collect_eligible_recipients :
    {D : Float} → Option (List Agent) → Md D → Option (List Agent × List Agent) × Md D
collect_eligible_recipients none md = (none, md)
collect_eligible_recipients (some registry) md =
    let all = all_eligible (map (λ (m : Miner). m.agent_id) md.miners) registry in
    let unfunded = unfunded_of md.books all in
    let finished = record (write_funding_status true md) { initial_funding_completed = true } in
    if is_empty all || is_empty unfunded then (none, finished) else (some (all, unfunded), md)

-- The first entry with this address.
unfoldable pub find_miner : String → List MinerInfo → Option MinerInfo
find_miner ip [] = none
find_miner ip (m ∷ miners) = if str_eq m.ip_addr ip then some m else find_miner ip miners

module _ {D : Float} (E : Env D) where
  open E use {
    World, now, agent_registry, miner_registry, miner_info_address, get_address, get_balance,
    refresh,
  }

  -- `query_miner_wallet_address` of agents/miner_distributor/discovery.py
  unfoldable pub query_miner_wallet_address : Agent → World → Option String × World
  query_miner_wallet_address agent w =
      let (answer, w') = get_address agent.ip_addr agent.wallet_rpc_port w in
      elim answer [
        | none ↦ (none, w')
        | some address ↦ (if is_valid_monero_address address then some address else none, w')
      ]

  -- The three sources of a miner's address.
  unfoldable pub miner_address : Agent → MinerInfo → World → String × World
  miner_address agent info w =
      let from_file = miner_info_address agent.id w in
      let (answer, w') = query_miner_wallet_address agent w in
      if not (str_eq info.wallet_address "")
      then (info.wallet_address, w)
      else if not (str_eq from_file "")
      then (from_file, w)
      else if agent.wallet_rpc_port == 0
      then ("", w)
      else (elim answer [ none ↦ "" | some address ↦ address ], w')

  unfoldable pub combine_miners : List Agent → List MinerInfo → World → List Miner × World
  combine_miners [] infos w = ([], w)
  combine_miners (agent ∷ agents) infos w =
      let skipped = combine_miners agents infos w in
      elim (if attribute_flag "is_miner" agent then find_miner agent.ip_addr infos else none) [
        | none ↦ skipped
        | some info ↦
            let (address, w1) = miner_address agent info w in
            let (miners, w2) = combine_miners agents infos w1 in
            (
              record {
                agent_id = agent.id;
                ip_addr = agent.ip_addr;
                wallet_rpc_port = agent.wallet_rpc_port;
                wallet_address = address;
                weight = info.weight;
              }
                  ∷ miners,
              w2,
            )
      ]

  -- `_discover_miners`: the miners stay as they are where a registry is missing.
  unfoldable pub discover_miners : Md D → World → Md D × World
  discover_miners md w = elim (agent_registry w) [
    | none ↦ (md, w)
    | some agents ↦ elim (miner_registry w) [
      | none ↦ (md, w)
      | some infos ↦
          let (miners, w') = combine_miners agents infos w in (record md { miners = miners }, w')
    ]
  ]

  -- The loop over the balances: whether a miner has enough for a batch.
  unfoldable pub some_miner_can_pay : Md D → List Miner → World → Bool × World
  some_miner_can_pay md [] w = (false, w)
  some_miner_can_pay md (m ∷ miners) w =
      let (answer, w') = get_balance m w in
      let rest = some_miner_can_pay md miners w' in
      let min_required =
        D.mul (D.of_ℕ (md.md_n_recipients * md.md_out_per_tx)) md.md_output_amount in
      elim answer [
        | err message ↦ rest
        | ok info ↦ elim info [
          | none ↦ rest
          | some unlocked ↦
              if D.le min_required (atomic_to_xmr D unlocked) then (true, w') else rest
        ]
      ]

  unfoldable pub check_miner_balance : Md D → World → Md D × World
  check_miner_balance md w =
      let counted = record md { balance_check_attempts = md.balance_check_attempts + 1 } in
      let (enough, w') = some_miner_can_pay md md.miners w in
      let over = leb md.max_wait_time (now w' - md.startup_time) in
      (if enough || over then record counted { waiting_for_maturity = false } else counted, w')

  -- The balance check, at most once in each `balance_check_interval`.
  unfoldable pub check_maturity_gate : ℕ → Md D → World → Md D × World
  check_maturity_gate current_time md w =
      let (md', w') = check_miner_balance md w in
      if md.waiting_for_maturity
        && leb md.balance_check_interval (current_time - md.last_balance_check)
      then (record md' { last_balance_check = current_time }, w')
      else (md, w)

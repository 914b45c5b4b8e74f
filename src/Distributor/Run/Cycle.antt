-- ===== src/Distributor/Run/Cycle.antt =====
-- The initial funding as a whole, the funding cycle and `run_iteration` of
-- agents/miner_distributor/agent.py, with agents/miner_distributor/funding.py.
use zano_shadow_sim.Base.{
  ℕ, zero, suc, ◌+◌, ◌-◌, ◌%◌, not, ◌&&◌, Option, none, some, List, [], ◌∷◌, String, leb, ◌==◌,
  str_eq, if◌then◌else◌, is_empty, length, max, take, sort_by, get_elem?, add, ok, err,
}
use zano_shadow_sim.Float.{Float}
use zano_shadow_sim.Distributor.{Agent, Miner, Md, Env}
use zano_shadow_sim.Distributor.Selection.{select_miner_excluding}
use zano_shadow_sim.Distributor.Send.{
  Outcome, atomic_to_xmr, get_recipient_address, send_batch_transaction, usable,
}
use zano_shadow_sim.Distributor.Funding.{
  finalize_funding_status, batch_recipients, process_funding_batches,
}
use zano_shadow_sim.Distributor.Run.{
  read_funding_status, load_funding_progress, collect_eligible_recipients, discover_miners,
  check_maturity_gate,
}

unfoldable pub miners_with_wallets : List Miner → List Miner
miners_with_wallets [] = []
miners_with_wallets (m ∷ miners) =
    let rest = miners_with_wallets miners in if str_eq m.wallet_address "" then rest else m ∷ rest

-- The temporary recipient entry of a miner.
unfoldable pub as_recipient : Miner → Agent
as_recipient m = record {
  id = m.agent_id;
  ip_addr = m.ip_addr;
  wallet_rpc_port = m.wallet_rpc_port;
  wallet_address = "";
  attributes = [];
}

-- `batch_ids.append(...)`, at the front
unfoldable pub with_entry : Option String → List String → List String
with_entry none rest = rest
with_entry (some r) rest = r ∷ rest

-- The recipients from index `idx` on, around the list.
unfoldable pub wrap_around : List String → ℕ → ℕ → List String
unfolding with_entry
wrap_around recipients idx zero = []
wrap_around recipients idx (suc n) =
    with_entry (get_elem? recipients (idx % length recipients)) (wrap_around recipients (idx + 1) n)

-- `agents_by_id.get(rid)`: a later entry replaces an earlier one.
unfoldable pub agent_by_id : String → List Agent → Option Agent
agent_by_id rid [] = none
agent_by_id rid (a ∷ agents) = elim (agent_by_id rid agents) [
  | some b ↦ some b
  | none ↦ if str_eq a.id rid then some a else none
]

-- The agents of a batch that exist and have a wallet.
unfoldable pub agents_of : List String → List Agent → List Agent
agents_of [] registry = []
agents_of (rid ∷ rids) registry =
    let rest = agents_of rids registry in
    elim (agent_by_id rid registry) [
      | none ↦ rest
      | some a ↦ if a.wallet_rpc_port == 0 then rest else a ∷ rest
    ]

module _ {D : Float} (E : Env D) where
  open E use {World, now, agent_registry, get_balance, refresh}

  -- The loop of `_fund_miners_first`: how many miners without an address have one after all.
  unfoldable pub count_funded : List Miner → World → ℕ × World
  count_funded [] w = (0, w)
  count_funded (m ∷ miners) w =
      let (answer, w') = get_recipient_address E (as_recipient m) w in
      let (rest, w'') = count_funded miners w' in
      let skipped = count_funded miners w in
      if not (str_eq m.wallet_address "")
      then skipped
      else (elim (usable E answer) [ none ↦ rest | some address ↦ suc rest ], w'')

  -- The batches of the collected recipients, and the completion test.
  unfoldable pub fund_collected : ℕ → World → Option (List Agent × List Agent) × Md D → Md D × World
  fund_collected total_miners w (none, md) = (md, w)
  fund_collected total_miners w (some (all_eligible, unfunded), md) =
      let (completed, md', w') =
        process_funding_batches E (batch_recipients md unfunded) total_miners [] md w in
      (if completed then finalize_funding_status all_eligible md' else md', w')

  -- The part of `_perform_initial_funding` that starts once miners with wallets are known.
  unfoldable pub fund_recipients : ℕ → Md D → World → Md D × World
  unfolding fund_collected
  fund_recipients total_miners md w =
      fund_collected total_miners w (collect_eligible_recipients (agent_registry w) md)

  -- `_fund_miners_first` calls this again as long as a miner without an address can be asked for one,
  -- which nothing bounds: on fuel, `none` where it runs out.
  unfoldable pub perform_initial_funding : ℕ → Md D → World → Option (Md D × World)
  perform_initial_funding zero md w = none
  perform_initial_funding (suc fuel) md w =
      let (proceed, md1) = load_funding_progress md in
      let (md2, w2) = check_maturity_gate E (now w) md1 w in
      let (md3, w3) = discover_miners E md2 w2 in
      let (funded_count, w4) = count_funded md3.miners w3 in
      let again = perform_initial_funding fuel md3 w4 in
      let ready = miners_with_wallets md3.miners in
      if not proceed
      then some (md1, w)
      else if md2.waiting_for_maturity
      then some (md2, w2)
      else if is_empty md3.miners
      then some (md3, w3)
      else if is_empty ready
      then if funded_count == 0 then some (md3, w4) else again
      else some (fund_recipients (length ready) md3 w3)

  -- `fit_batch_to_unlocked_balance`: the agents that the miner's unlocked balance can pay.
  unfoldable pub fit_batch_to_unlocked_balance :
      Md D → Miner → List Agent → World → List Agent × World
  fit_batch_to_unlocked_balance md miner batch w =
      let (answer, w') = get_balance miner w in
      let per_recipient = D.mul (D.of_ℕ md.md_out_per_tx) md.md_output_amount in
      elim answer [
        | err message ↦ (batch, w')
        | ok info ↦
            let unlocked : ℕ = elim info [ none ↦ 0 | some n ↦ n ] in
            let usable_xmr = D.div (atomic_to_xmr D unlocked) (D.div (D.of_ℕ 105) (D.of_ℕ 100)) in
            let max_fit = D.to_int (D.floor_div usable_xmr per_recipient) in
            if D.le per_recipient (D.of_ℕ 0)
            then (batch, w')
            else if leb (length batch) max_fit
            then (batch, w')
            else if max_fit == 0
            then ([], w')
            else (take max_fit batch, w')
      ]

  -- The failover loop of `_run_funding_cycle`: the outcome that succeeded, if any.
  unfoldable pub try_miners : ℕ → List String → Md D → List Agent → World → Option Outcome × World
  try_miners zero exhausted md batch w = (none, w)
  try_miners (suc left) exhausted md batch w =
      let (selected, w1) = select_miner_excluding E md exhausted w in
      elim selected [
        | none ↦ (none, w1)
        | some m ↦
            let (sized_batch, w2) = fit_batch_to_unlocked_balance md m batch (refresh m w1) in
            let (o, w3) = send_batch_transaction E md m sized_batch w2 in
            let without = try_miners left (add m.agent_id exhausted) md batch in
            if is_empty sized_batch
            then without w2
            else if o.success
            then (some o, w3)
            else without w3
      ]

  unfoldable pub run_funding_cycle : Md D → World → Md D × World
  run_funding_cycle md w =
      let recipients = sort_by (λ (s : String). s) (read_funding_status md).funded_recipients in
      let size = max 1 md.md_n_recipients in
      let start_idx = md.funding_cycle_index % length recipients in
      let md' = record md { funding_cycle_index = (start_idx + size) % length recipients } in
      if is_empty recipients then (md, w) else elim (agent_registry w) [
        | none ↦ (md, w)
        | some registry ↦
            let batch = agents_of (wrap_around recipients start_idx size) registry in
            let tries = max 1 (length md.miners) in
            if is_empty batch then (md', w) else (md', (try_miners tries [] md' batch w).1)
      ]

  -- The end of an iteration, where no initial funding was tried: the cycle when it is due, and the
  -- time to wait.
  unfoldable pub cycle_turn : ℕ → Md D → World → ℕ × Md D × World
  cycle_turn current_time md w =
      let elapsed = current_time - md.last_funding_cycle_time in
      let (md', w') = run_funding_cycle md w in
      let due = md.initial_funding_completed && leb md.md_funding_cycle_interval elapsed in
      if due
      then (md.md_funding_cycle_interval, record md' { last_funding_cycle_time = current_time }, w')
      else (max 30 (md.md_funding_cycle_interval - elapsed), md, w)

  -- 30 seconds for the funds to arrive.
  unfoldable pub paused : Option (Md D × World) → Option (ℕ × Md D × World)
  paused none = none
  paused (some (md, w)) = some (30, md, w)

  -- The seconds to wait, and the state; `none` where the fuel for the initial funding runs out.
  unfoldable pub run_iteration : ℕ → Md D → World → Option (ℕ × Md D × World)
  unfolding paused
  run_iteration fuel md w =
      let (md1, w1) = discover_miners E md w in
      let current_time = now w1 in
      let (md2, w2) = check_maturity_gate E current_time md1 w1 in
      if md1.initial_funding_completed
      then some (cycle_turn current_time md1 w1)
      else if md2.waiting_for_maturity
      then some (cycle_turn current_time md2 w2)
      else paused (perform_initial_funding fuel md2 w2)

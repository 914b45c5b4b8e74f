-- ===== src/Distributor/Funding.antt =====
-- The initial funding: the books on recipients, the batches, the failover between miners and the
-- completion test of agents/miner_distributor/agent.py.
pub mod Bookkeeping
pub mod Slices
pub mod Process
pub mod Unreachable
use zano_shadow_sim.Base.{
  ℕ, zero, suc, ◌+◌, ◌-◌, Bool, true, false, not, ◌&&◌, ◌||◌, Option, none, some, List, [], ◌∷◌,
  map, String, ltb, leb, ◌==◌, str_eq, if◌then◌else◌, is_empty, contains, add, discard, update,
  length, max, take, drop, sort_by, codes, lower,
}
use zano_shadow_sim.Base.Dict.{lookup, insert, erase}
use zano_shadow_sim.Float.{Float}
use zano_shadow_sim.Distributor.{
  Agent, Attr, flag, number, text, other, Miner, Status, empty_funding_status, Books, Md, Env,
}
use zano_shadow_sim.Distributor.Selection.{select_miner_excluding}
use zano_shadow_sim.Distributor.Send.{Outcome, ids, send_batch_transaction}

abbrev pub permanent_failure_threshold : ℕ
permanent_failure_threshold = 5

-- `get(rid, 0) + 1`
abbrev pub next_count : Option ℕ → ℕ
next_count none = 1
next_count (some n) = n + 1

-- One recipient of `_record_recipient_failure`.
unfoldable pub record_failure : Books → String → Books
record_failure b rid =
    let count = next_count (lookup rid b.retries) in
    let counted = record b { failed = add rid b.failed; retries = insert rid count b.retries } in
    let given_up = record counted {
      permanent = add rid b.permanent;
      failed = discard rid (add rid b.failed);
    } in
    if str_eq rid "" || (contains rid b.funded || contains rid b.permanent)
    then b
    else if leb permanent_failure_threshold count
    then given_up
    else counted

unfoldable pub record_recipient_failure : List String → Books → Books
record_recipient_failure [] b = b
record_recipient_failure (rid ∷ rids) b = record_recipient_failure rids (record_failure b rid)

-- A funded recipient of a successful batch: the two sets and `_record_recipient_success`.
unfoldable pub record_success : Books → String → Books
record_success b rid = record b {
  funded = add rid b.funded;
  failed = discard rid b.failed;
  retries = erase rid b.retries;
}

unfoldable pub record_successes : List String → Books → Books
record_successes [] b = b
record_successes (rid ∷ rids) b = record_successes rids (record_success b rid)

-- What both callers of `_send_batch_transaction` do after a success.
unfoldable pub settle_batch : Outcome → Books → Books
settle_batch o b = record_recipient_failure o.failed (record_successes o.funded b)

-- `for r in batch: failed_recipients.add(r.get('id'))`
unfoldable pub fail_batch : List Agent → Books → Books
fail_batch batch b = record b { failed = update (ids batch) b.failed }

-- `_batch_recipients`: slices of `batch_size`, as many as the fuel allows. A batch is not
-- empty, so the number of recipients is fuel enough.
pub slices : ℕ → ℕ → List Agent → List (List Agent)
slices zero size agents = []
slices (suc fuel) size agents =
    let rest = take size agents ∷ slices fuel size (drop size agents) in
    if is_empty agents then [] else rest

unfoldable pub batch_recipients : {D : Float} → Md D → List Agent → List (List Agent)
unfolding slices
batch_recipients md unfunded = slices (length unfunded) (max 1 md.md_n_recipients) unfunded

module _ {D : Float} where
  -- `_write_funding_status`
  unfoldable pub write_funding_status : Bool → Md D → Md D
  write_funding_status completed md = record md {
    status = some (record {
      funded_recipients = md.books.funded;
      failed_recipients = md.books.failed;
      permanently_failed = sort_by (λ (s : String). s) md.books.permanent;
      completed = completed;
    });
  }

  -- The books settled and the progress written.
  unfoldable pub save : Books → Md D → Md D
  save b md = write_funding_status false (record md { books = b })

  unfoldable pub finalize_funding_status : List Agent → Md D → Md D
  finalize_funding_status all_eligible md =
      let all_done =
        leb (length all_eligible) (length md.books.funded + length md.books.permanent) in
      let written = write_funding_status all_done md in
      if all_done then record written { initial_funding_completed = true } else written

module _ {D : Float} (E : Env D) where
  open E use {World}

  -- A selection, with the second chance for everybody once all miners are exhausted.
  unfoldable pub select_or_reset :
      Md D → List String → ℕ → World → Option Miner × List String × World
  select_or_reset md exhausted total_miners w =
      let (selected, w1) = select_miner_excluding E md exhausted w in
      let (again, w2) = select_miner_excluding E md [] w1 in
      elim selected [
        | some m ↦ (some m, exhausted, w1)
        | none ↦
            if leb total_miners (length exhausted) then (again, [], w2) else (none, exhausted, w1)
      ]

  -- `_retry_failed_batch`: whether to go on, the state, and the exhausted miners.
  unfoldable pub retry_failed_batch :
      Md D → List Agent → Miner → List String → ℕ → World → Bool × Md D × List String × World
  retry_failed_batch md batch miner exhausted total_miners w =
      let (selected, exhausted', w1) =
        select_or_reset md (add miner.agent_id exhausted) total_miners w in
      elim selected [
        | none ↦ (false, save (fail_batch batch md.books) md, exhausted', w1)
        | some m ↦
            let (o, w2) = send_batch_transaction E md m batch w1 in
            if o.success
            then (true, save (settle_batch o md.books) md, exhausted', w2)
            else (false, save (fail_batch batch md.books) md, add m.agent_id exhausted', w2)
      ]

  -- One round of `_process_funding_batches`.
  unfoldable pub process_batch :
      Md D → List Agent → List String → ℕ → World → Bool × Md D × List String × World
  process_batch md batch exhausted total_miners w =
      let (selected, exhausted', w1) = select_or_reset md exhausted total_miners w in
      elim selected [
        | none ↦ (false, save (fail_batch batch md.books) md, exhausted', w1)
        | some m ↦
            let (o, w2) = send_batch_transaction E md m batch w1 in
            if o.success
            then (true, save (settle_batch o md.books) md, exhausted', w2)
            else retry_failed_batch md batch m exhausted' total_miners w2
      ]

  -- The loop over the batches: whether all were completed.
  unfoldable pub process_funding_batches :
      List (List Agent) → ℕ → List String → Md D → World → Bool × Md D × World
  process_funding_batches [] total_miners exhausted md w = (true, md, w)
  process_funding_batches (batch ∷ batches) total_miners exhausted md w =
      let (go_on, md', exhausted', w') = process_batch md batch exhausted total_miners w in
      let rest = process_funding_batches batches total_miners exhausted' md' w' in
      if go_on then rest else (false, md', w')

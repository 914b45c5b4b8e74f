-- ===== src/Monitor/Laws.antt =====
-- The block counts of agents/simulation_monitor/agent.py.
use zano_shadow_sim.Base.{
  ℕ, zero, suc, ◌+◌, ◌-◌, ◌≤◌, ◌<◌, ◌≡◌, ◌≢◌, refl, inl, inr, max, true, Option, none, some, List,
  [], ◌∷◌, ◌++◌, String, ◌==◌, if◌then◌else◌, length, length-append, Result, ok, err, Result-cases,
  arith, ap, sym, ◌∙◌, Option-cases, Bool-cases,
}
use zano_shadow_sim.Base.Dict.{Dict, lookup, insert}
use zano_shadow_sim.Monitor.{
  Blocks, credited, record_block_mined, count_of, TransactionStats, include_block, process_blocks,
  extract_transactions_from_blocks,
}

-- The sum of the totals.
abbrev pub sum_of : Dict ℕ → ℕ
sum_of [] = 0
sum_of ((agent_id, n) ∷ totals) = n + sum_of totals

sum_of-insert :
    (agent_id : String) (totals : Dict ℕ)
    → sum_of (insert agent_id (count_of (lookup agent_id totals) + 1) totals) ≡ sum_of totals + 1
unfolding insert lookup
sum_of-insert agent_id [] = refl
sum_of-insert agent_id ((j, n) ∷ totals) = ground (arith, sum_of-insert agent_id totals)

-- The agents' totals add up to the number of credited heights.
abbrev pub IsTallied : Blocks → Type 0
IsTallied b = sum_of b.total_blocks_mined_by_agent ≡ length b.blocks_mined_by_height

-- Where the totals of the agents add up to the number of credited heights, they do so after a
-- report of a block.
pub record_block_mined-IsTallied :
    (agent_id : String) (height current_time : ℕ) (b : Blocks)
    → IsTallied b
    → IsTallied (record_block_mined agent_id height current_time b)
unfolding record_block_mined
record_block_mined-IsTallied agent_id height current_time b h =
    elim (Option-cases (credited height b.blocks_mined_by_height)) [
      | inl e ↦
          rw (e, record_block_mined)
            (sum_of-insert agent_id b.total_blocks_mined_by_agent
              ∙ omega (arith, h, length-append b.blocks_mined_by_height ((height, agent_id) ∷ [])))
      | inr (other, e) ↦ rw (e, record_block_mined) h
    ]

credited-append :
    (h height : ℕ) (agent_id : String) (blocks : List (ℕ × String))
    → credited h (blocks ++ (height, agent_id) ∷ [])
      ≡ elim (credited h blocks) as (λ _. Option String) [
        | some other ↦ some other
        | none ↦ if height == h then some agent_id else none
      ]
unfolding credited
credited-append h height agent_id [] = refl
credited-append h height agent_id ((g, a) ∷ blocks) =
    ground (arith, credited-append h height agent_id blocks)

eq_of : (a b : ℕ) → (a == b) ≡ true → a ≡ b
eq_of a b h = ground arith

-- After a report of a block its height is credited to the agent that was credited before or,
-- where there was none, to the one that reports it, and no other height's credit changes.
pub credited-record_block_mined :
    (agent_id : String) (height current_time h : ℕ) (b : Blocks)
    → credited h (record_block_mined agent_id height current_time b).blocks_mined_by_height
      ≡ elim (credited h b.blocks_mined_by_height) as (λ _. Option String) [
        | some other ↦ some other
        | none ↦ if height == h then some agent_id else none
      ]
unfolding record_block_mined
credited-record_block_mined agent_id height current_time h b =
    elim (Option-cases (credited height b.blocks_mined_by_height)) [
      | inl e ↦
          rw (e, record_block_mined) (credited-append h height agent_id b.blocks_mined_by_height)
      | inr (other, e) ↦
          rw (e, record_block_mined)
            (elim (Bool-cases (height == h)) [
              | inl same ↦ ground (
                arith,
                e,
                ap (λ (k : ℕ). credited k b.blocks_mined_by_height) (eq_of height h same),
              )
              | inr differ ↦ ground (arith, differ)
            ])
    ]

ok-ne-err : {A : Type 0} (a : A) (message : String) → ok a ≢ err message
ok-ne-err a message h = cc

-- A height that can be read is not one that cannot.
lt_of_fails :
    (get_block : ℕ → Result (List String)) (height k : ℕ) (hashes : List String) (message : String)
    → get_block height ≡ ok hashes
    → get_block k ≡ err message
    → height ≤ k
    → height < k
lt_of_fails get_block height k hashes message good bad h = elim (Bool-cases (height == k)) [
  | inl same ↦
      absurd (ok-ne-err hashes message (sym good ∙ ap get_block (eq_of height k same) ∙ bad))
  | inr differ ↦ ground (arith, differ)
]

-- A height that cannot be read stays above the last processed one.
process_blocks-keeps_below :
    (get_block : ℕ → Result (List String)) (k : ℕ) (message : String)
    → get_block k ≡ err message
    → (left height : ℕ) (s : TransactionStats) → s.last_processed_height < k
    → height ≤ k
    → (process_blocks get_block left height s).last_processed_height < k
unfolding process_blocks include_block
process_blocks-keeps_below get_block k message fails zero height s below h = below
process_blocks-keeps_below get_block k message fails (suc left) height s below h =
    elim (Result-cases (get_block height)) [
      | inl (hashes, e) ↦
          let now_below = lt_of_fails get_block height k hashes message e fails h in
          rw (e, process_blocks)
            (process_blocks-keeps_below get_block k message fails left (height + 1)
              (include_block height hashes s) now_below (omega (arith, now_below)))
      | inr (m, e) ↦ rw (e, process_blocks) below
    ]

-- A block of height 2 or more that the daemon does not give, above the last processed height, is
-- above it after a run as well.
pub extract_transactions_from_blocks_retries :
    (get_block : ℕ → Result (List String)) (k current_height : ℕ) (message : String)
    (s : TransactionStats)
    → get_block k ≡ err message
    → 2 ≤ k
    → s.last_processed_height < k
    → (extract_transactions_from_blocks get_block current_height s).last_processed_height < k
unfolding extract_transactions_from_blocks
extract_transactions_from_blocks_retries get_block k current_height message s fails h below =
    let start = max 2 (s.last_processed_height + 1) in
    let held =
      process_blocks-keeps_below get_block k message fails (current_height + 1 - start) start s
        below (omega arith) in
    ground (arith, held)

process_blocks_reaches :
    (get_block : ℕ → Result (List String))
    → ((k : ℕ) → (hashes : List String) × (get_block k ≡ ok hashes))
    → (left height : ℕ) (s : TransactionStats) → s.last_processed_height + 1 ≡ height
    → (process_blocks get_block left height s).last_processed_height + 1 ≡ height + left
unfolding process_blocks include_block
process_blocks_reaches get_block good zero height s h = omega (arith, h)
process_blocks_reaches get_block good (suc left) height s h =
    rw ((good height).1, process_blocks)
      (process_blocks_reaches get_block good left (height + 1)
          (include_block height (good height).0 s) refl
        ∙ omega arith)

-- With a daemon that gives every block, a run from a last processed height of at least 1 and at
-- most the current height ends at the current height.
pub extract_transactions_from_blocks_reaches :
    (get_block : ℕ → Result (List String)) (current_height : ℕ) (s : TransactionStats)
    → ((k : ℕ) → (hashes : List String) × (get_block k ≡ ok hashes))
    → 1 ≤ s.last_processed_height
    → s.last_processed_height ≤ current_height
    → (extract_transactions_from_blocks get_block current_height s).last_processed_height
      ≡ current_height
unfolding extract_transactions_from_blocks
extract_transactions_from_blocks_reaches get_block current_height s good h k =
    let start = max 2 (s.last_processed_height + 1) in
    let reached =
      process_blocks_reaches get_block good (current_height + 1 - start) start s (omega arith) in
    ground (arith, reached)

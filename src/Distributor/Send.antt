-- ===== src/Distributor/Send.antt =====
-- One batch transaction: `_get_recipient_address`, `_validate_transaction_params` and
-- `_send_batch_transaction` of agents/miner_distributor/agent.py, with the address check and the
-- unit conversion of agents/shared_utils.py and the retries of agents/base_agent.py.
pub mod Laws
use zano_shadow_sim.Base.{
  ℕ, zero, suc, ◌+◌, ◌*◌, ◌-◌, ◌^◌, Bool, true, false, not, ◌&&◌, ◌||◌, Option, none, some, List,
  [], ◌∷◌, ◌++◌, map, String, ltb, leb, ◌==◌, str_eq, if◌then◌else◌, is_empty, contains, codes,
  lower, is_infix, starts_with, length, ◌⊎◌, inl, inr,
}
use zano_shadow_sim.Float.{Float}
use zano_shadow_sim.Distributor.{Agent, Miner, Destination, Reply, sent, raised, TxRecord, Md, Env}

-- agents/constants.py
abbrev pub atomic_units_per_xmr : ℕ
atomic_units_per_xmr = 10 ^ 12

abbrev pub max_reasonable_tx_xmr : ℕ
max_reasonable_tx_xmr = 1000

abbrev pub min_address_length : ℕ
min_address_length = 4

abbrev pub max_address_length : ℕ
max_address_length = 95

unfoldable pub is_valid_monero_address : String → Bool
is_valid_monero_address address =
    let text = codes address in
    not (is_empty text)
    && ((starts_with text (b'4' ∷ []) || starts_with text (b'8' ∷ []))
        && (leb min_address_length (length text) && leb (length text) max_address_length))

unfoldable pub xmr_to_atomic : (D : Float) → D.F → ℕ
xmr_to_atomic D amount = D.to_int (D.mul amount (D.of_ℕ atomic_units_per_xmr))

unfoldable pub atomic_to_xmr : (D : Float) → ℕ → D.F
atomic_to_xmr D amount = D.div (D.of_ℕ amount) (D.of_ℕ atomic_units_per_xmr)

unfoldable pub validate_transaction_params : {D : Float} → Md D → String → D.F → Bool → Bool
validate_transaction_params {D} md address amount skip_max_check =
    if not (is_valid_monero_address address)
    then false
    else if D.le amount (D.of_ℕ 0)
    then false
    else if D.lt amount md.min_transaction_amount
    then false
    else if not skip_max_check && D.lt md.max_transaction_amount amount
    then false
    else if D.lt (D.of_ℕ max_reasonable_tx_xmr) amount
    then false
    else ltb 0 (xmr_to_atomic D amount)

-- What becomes of an attempt that raised.
pub data Recovery : Type 0 where
  give_up retry_after_not_ready retry_after_error : Recovery

abbrev says : String → List ℕ → Bool
says words error_msg = is_infix (codes words) error_msg

-- The `except` clause of the sending loop.
unfoldable pub classify : List ℕ → Recovery
classify raw =
    let error_msg = lower raw in
    if says "not enough money" error_msg
      || (says "not enough unlocked money" error_msg || says "insufficient funds" error_msg)
    then give_up
    else if says "invalid params" error_msg
    then give_up
    else if says "wallet is not ready" error_msg || says "wallet not ready" error_msg
    then retry_after_not_ready
    else retry_after_error

-- The result of `_send_batch_transaction`: success, the funded ids, the failed ids.
abbrev pub Outcome : Type 0
Outcome = record { success : Bool; funded : List String; failed : List String }

abbrev pub failure : List String → Outcome
failure ids = record { success = false; funded = []; failed = ids }

abbrev pub ids : List Agent → List String
ids = map (λ (r : Agent). r.id)

-- The ids of the recipients that are in the transaction, each once and in order.
unfoldable pub funded_ids : List String → List String → List (Agent × String) → List String
funded_ids failed seen [] = []
funded_ids failed seen ((r, address) ∷ valid) =
    let known = contains r.id seen || contains r.id failed in
    let rest = funded_ids failed (if known then seen else r.id ∷ seen) valid in
    if known then rest else r.id ∷ rest

-- `range(n)` times the same destination.
outputs : ℕ → Destination → List Destination
outputs zero d = []
outputs (suc n) d = d ∷ outputs n d

-- The loop that builds the destinations, and the ids that fail its validation.
unfoldable pub build_destinations :
    {D : Float} → Md D → ℕ → List (Agent × String) → List Destination × List String
unfolding outputs
build_destinations md amount_atomic [] = ([], [])
build_destinations md amount_atomic ((r, address) ∷ valid) =
    let (destinations, failed) = build_destinations md amount_atomic valid in
    if validate_transaction_params md address md.md_output_amount true
    then (
      outputs md.md_out_per_tx (record { address = address; amount = amount_atomic })
          ++ destinations,
      failed,
    )
    else (destinations, r.id ∷ failed)

module _ {D : Float} (E : Env D) where
  open E use {World, sleep, get_address, user_info_address, transfer_split, append_shared_list}

  -- `retry_with_backoff` with attempts left and the delay before the next one
  unfoldable pub retry_with_backoff : ℕ → ℕ → Agent → World → Option String × World
  retry_with_backoff zero delay r w = (none, w)
  retry_with_backoff (suc left) delay r w =
      let (answer, w') = get_address r.ip_addr r.wallet_rpc_port w in
      let again = retry_with_backoff left (delay * 2) r (sleep delay w') in
      elim answer [
        | some address ↦ (some address, w')
        | none ↦ if left == 0 then (none, w') else again
      ]

  -- The address if it is a valid one.
  check_address : Option String × World → Option String × World
  check_address (none, w) = (none, w)
  check_address (some address, w) =
      (if is_valid_monero_address address then some address else none, w)

  unfoldable pub get_recipient_address : Agent → World → Option String × World
  unfolding check_address
  get_recipient_address r w =
      let cached = user_info_address r.id w in
      if not (str_eq r.wallet_address "")
      then (some r.wallet_address, w)
      else if not (str_eq cached "")
      then (some cached, w)
      else check_address (retry_with_backoff 5 3 r w)

  -- A truthy address.
  unfoldable pub usable : Option String → Option String
  usable none = none
  usable (some address) = if str_eq address "" then none else some address

  -- The loop over the recipients: those with an address, and the ids of those without.
  unfoldable pub look_up : List Agent → World → List (Agent × String) × List String × World
  unfolding usable
  look_up [] w = ([], [], w)
  look_up (r ∷ recipients) w =
      let (answer, w1) = get_recipient_address r w in
      let (valid, failed, w2) = look_up recipients w1 in
      elim (usable answer) [
        | none ↦ (valid, r.id ∷ failed, w2)
        | some address ↦ ((r, address) ∷ valid, failed, w2)
      ]

  -- The loop over the attempts; `left` counts those after this one.
  module _ (miner : Miner) (recipients : List Agent) (valid : List (Agent × String)) where
    module _ (failed : List String) (destinations : List Destination) where
      abbrev entry : List String → TxRecord
      entry hashes = record {
        tx_hashes = hashes;
        sender_id = miner.agent_id;
        recipients = funded_ids failed [] valid;
        num_outputs = length destinations;
      }

      abbrev success_outcome : Outcome
      success_outcome = record {
        success = true;
        funded = funded_ids failed [] valid;
        failed = failed;
      }

      -- The hashes of a reply; `none` where it has none.
      hashes_of : List String → String → Option (List String)
      hashes_of (h ∷ hashes) single = some (h ∷ hashes)
      hashes_of [] single = if str_eq single "" then none else some (single ∷ [])

      -- What the reply leads to: a result, or the text of an exception, which the append raises too.
      unfoldable pub settle : Reply → World → (Outcome ⊎ List ℕ) × World
      unfolding hashes_of
      settle (raised message) w = (inr message, w)
      settle (sent hash_list single) w = elim (hashes_of hash_list single) [
        | none ↦ (inl (failure (ids recipients)), w)
        | some hashes ↦
            let (problem, w') = append_shared_list (entry hashes) w in
            elim problem [ none ↦ (inl success_outcome, w') | some message ↦ (inr message, w') ]
      ]

      unfoldable pub attempts : ℕ → ℕ → World → Outcome × World
      attempts zero attempt w = (failure (ids recipients), w)
      attempts (suc left) attempt w =
          let (reply, w1) = transfer_split miner destinations w in
          let (settled, w2) = settle reply w1 in
          let again_not_ready = attempts left (attempt + 1) (sleep (5 * (attempt + 1)) w2) in
          let again_error = attempts left (attempt + 1) (sleep (2 ^ attempt) w2) in
          let stop : Outcome × World = (failure (ids recipients), w2) in
          elim settled [
            | inl outcome ↦ (outcome, w2)
            | inr message ↦ elim (classify message) [
              | give_up ↦ stop
              | retry_after_not_ready ↦ if left == 0 then stop else again_not_ready
              | retry_after_error ↦ if left == 0 then stop else again_error
            ]
          ]

  unfoldable pub send_batch_transaction : Md D → Miner → List Agent → World → Outcome × World
  send_batch_transaction md miner recipients w =
      let (valid, lookup_failed, w') = look_up recipients w in
      let amount_atomic = xmr_to_atomic D md.md_output_amount in
      let (destinations, invalid) = build_destinations md amount_atomic valid in
      if is_empty recipients
      then (failure [], w)
      else if is_empty valid
      then (failure (ids recipients), w')
      else if amount_atomic == 0
      then (failure (ids recipients), w')
      else if is_empty destinations
      then (failure (ids recipients), w')
      else attempts miner recipients valid (lookup_failed ++ invalid) destinations md.max_retries 0
          w'

-- ===== src/User.antt =====
-- The regular user of agents/regular_user.py.
pub mod Recipients
pub mod Laws
pub mod Payments
use zano_shadow_sim.Base.{
  ℕ, ◌+◌, ◌-◌, min, Bool, true, false, not, ◌&&◌, ◌||◌, Option, none, some, List, [], ◌∷◌, ◌++◌,
  String, ltb, leb, if◌then◌else◌, get_elem?, codes, is_infix, Result, ok, err, ◌>>=◌, sort_by,
}
use zano_shadow_sim.Float.{Float}
use zano_shadow_sim.Distributor.Send.{xmr_to_atomic}
use zano_shadow_sim.Shared.Json.{Json, Members, get}
use zano_shadow_sim.Shared.Values.{truthy}
use zano_shadow_sim.User.Recipients.{SharedInfo, get_other_agents, id_key, truthy_option}

-- The attributes that an iteration reads and changes; times in whole seconds.
pub record User : Type 0 where
  pub agent_id : String
  pub waiting_for_activity_start : Bool
  pub activity_start_time : ℕ
  pub wallet_synced : Bool
  pub last_refresh_time : ℕ
  pub refresh_interval : ℕ
  pub consecutive_errors : ℕ
  pub tx_interval : ℕ

abbrev pub shadow_epoch : ℕ
shadow_epoch = 946684800

-- The part of `_setup_transaction_parameters` on the activity's start.
unfoldable pub setup_activity : ℕ → ℕ → User → User
setup_activity activity_start_sim_s current_time u =
    let start = shadow_epoch + activity_start_sim_s in
    if ltb 0 activity_start_sim_s
    then record u {
      activity_start_time = start;
      waiting_for_activity_start = ltb current_time start;
    }
    else record u { activity_start_time = 0; waiting_for_activity_start = false }

-- A transfer that the wallet is asked for.
pub record Transfer : Type 0 where
  pub recipient : Members
  pub address : Json
  pub amount : ℕ

-- What an iteration meets: the clock, the wallet's answers, the shared files and the random draws.
pub record Turn (D : Float) : Type 0 where
  pub now : ℕ
  pub sync : Result ℕ  -- `refresh` and `get_height`
  pub refresh : Result ℕ
  pub balance : Result ℕ  -- the unlocked balance
  pub draws_transaction : Bool  -- `random.random() < tx_send_probability`
  pub shared : SharedInfo
  pub choice : ℕ  -- of `random.choice`
  pub amount : D.F  -- of `random.uniform`
  pub recovers : Bool  -- `_recover_wallet_connection()`

-- The sleeping time, the state, and the transfer that was asked for. What the wallet answers to it
-- is caught and changes nothing of these.
abbrev pub TurnOutcome : Type 0
TurnOutcome = ℕ × User × Option Transfer

-- `_maybe_wait_for_activity_start`
unfoldable pub maybe_wait : ℕ → User → Option ℕ × User
maybe_wait current_time u =
    if u.waiting_for_activity_start
    then (if ltb current_time u.activity_start_time
        then (some (min 300 (u.activity_start_time - current_time)), u)
        else (none, record u { waiting_for_activity_start = false; wallet_synced = false }))
    else (none, u)

-- `_ensure_wallet_synced`
unfoldable pub ensure_synced : ℕ → Result ℕ → User → Option ℕ × User
ensure_synced now (ok height) u =
    if u.wallet_synced
    then (none, u)
    else (none, record u { wallet_synced = true; last_refresh_time = now })
ensure_synced now (err e) u = if u.wallet_synced then (none, u) else (some 30, u)

-- `_periodic_wallet_refresh`
unfoldable pub periodic_refresh : ℕ → Result ℕ → User → User
periodic_refresh now (err e) u = u
periodic_refresh now (ok n) u =
    if leb (u.last_refresh_time + u.refresh_interval) now
    then record u { last_refresh_time = now }
    else u

-- `_on_iteration_success`
unfoldable pub on_success : User → ℕ × User
on_success u = (u.tx_interval, record u { consecutive_errors = 0 })

-- "-13" or "No wallet file" in the error's text
unfoldable pub wallet_not_loaded : String → Bool
unfolding is_infix
wallet_not_loaded e =
    is_infix (codes "-13") (codes e) || is_infix (codes "No wallet file") (codes e)

-- `_on_iteration_error`
unfoldable pub on_error : String → Bool → ℕ → User → ℕ × User
unfolding wallet_not_loaded
on_error e recovers now u =
    let counted : User = record u { consecutive_errors = u.consecutive_errors + 1 } in
    if (wallet_not_loaded e || leb 2 counted.consecutive_errors) && recovers
    then (30, record counted { last_refresh_time = now })
    else (30, counted)

-- A transfer, where there is one, with its time.
abbrev pub logged : ℕ → Option Transfer → List (ℕ × Transfer) → List (ℕ × Transfer)
logged now none rest = rest
logged now (some transfer) rest = (now, transfer) ∷ rest

module _ (D : Float) where
  -- The transfer to a recipient, if it has an address.
  unfoldable pub pay_to : Turn D → Members → Option Json → Option Transfer
  pay_to t recipient none = none
  pay_to t recipient (some address) =
      if truthy address
      then some
          (record { recipient = recipient; address = address; amount = xmr_to_atomic D t.amount })
      else none

  unfoldable pub pay_one : Turn D → Option Members → Option Transfer
  unfolding pay_to get
  pay_one t none = none
  pay_one t (some recipient) = pay_to t recipient (get "wallet_address" recipient)

  -- `_send_random_transaction` up to the transfer
  unfoldable pub send_random_transaction : Turn D → User → Result (Option Transfer)
  unfolding get_other_agents sort_by pay_one
  send_random_transaction t u = do
    others ← get_other_agents t.shared u.agent_id
    ok (pay_one t (get_elem? (sort_by id_key others) t.choice))

  -- `_maybe_send_transaction`
  unfoldable pub maybe_send : Turn D → User → Result (Option Transfer)
  unfolding send_random_transaction
  maybe_send t u = do
    unlocked ← t.balance
    if ltb 0 unlocked && t.draws_transaction then send_random_transaction t u else ok none

  unfoldable pub finish_turn : Turn D → User → Result (Option Transfer) → TurnOutcome
  unfolding on_success on_error
  finish_turn t u (ok sent) = ((on_success u).0, (on_success u).1, sent)
  finish_turn t u (err e) =
      ((on_error e t.recovers t.now u).0, (on_error e t.recovers t.now u).1, none)

  -- The turn of a user with a synced wallet.
  unfoldable pub transact : Turn D → User → TurnOutcome
  unfolding periodic_refresh maybe_send finish_turn
  transact t u =
      let refreshed = periodic_refresh t.now t.refresh u in
      finish_turn t refreshed (maybe_send t refreshed)

  unfoldable pub after_sync : Turn D → Option ℕ × User → TurnOutcome
  unfolding transact
  after_sync t (some pause, u) = (pause, u, none)
  after_sync t (none, u) = transact t u

  unfoldable pub after_wait : Turn D → Option ℕ × User → TurnOutcome
  unfolding ensure_synced after_sync
  after_wait t (some pause, u) = (pause, u, none)
  after_wait t (none, u) = after_sync t (ensure_synced t.now t.sync u)

  -- `_run_user_iteration`, with a wallet
  unfoldable pub run_user_iteration : Turn D → User → TurnOutcome
  unfolding maybe_wait after_wait
  run_user_iteration t u = after_wait t (maybe_wait t.now u)

  -- The iterations one after the other: the transfers with their times.
  unfoldable pub run_turns : List (Turn D) → User → List (ℕ × Transfer)
  unfolding run_user_iteration
  run_turns [] u = []
  run_turns (t ∷ turns) u =
      let (pause, u', sent) = run_user_iteration t u in logged t.now sent (run_turns turns u')

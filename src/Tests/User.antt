-- ===== src/Tests/User.antt =====
-- Examples of the laws of the regular user.
use zano_shadow_sim.Base.{
  ℕ, ◌+◌, ◌^◌, ◌≡◌, refl, true, false, none, some, List, [], ◌∷◌, arith, All, ok, err,
}
use zano_shadow_sim.Float.Ratio.{ratios}
use zano_shadow_sim.Distributor.Send.{xmr_to_atomic}
use zano_shadow_sim.Shared.Json.{Json, Jsons, Members}
use zano_shadow_sim.User.{User, shadow_epoch, setup_activity, Transfer, Turn, maybe_send, run_turns}
use zano_shadow_sim.User.Laws.{IsOrdered, PaysAfter, run_turns-PaysAfter}
use zano_shadow_sim.User.Payments.{IsPayment, maybe_send-IsPayment}

abbrev new_user : User
new_user = record {
  agent_id = "user-001";
  waiting_for_activity_start = false;
  activity_start_time = 0;
  wallet_synced = true;
  last_refresh_time = 0;
  refresh_interval = 300;
  consecutive_errors = 0;
  tx_interval = 60;
}

-- The user itself, and a miner.
abbrev two_agents : Json
two_agents = Json.object (
    Members.member "agents"
      (Json.array (
        Jsons.cons
          (Json.object (
            Members.member "id" (Json.text "user-001")
              (Members.member "wallet_address" (Json.text "4U") Members.empty)))
          (Jsons.cons
            (Json.object (
              Members.member "id" (Json.text "miner-001")
                (Members.member "wallet_address" (Json.text "4M") Members.empty)))
            Jsons.nil)))
      Members.empty)

abbrev turn_at : ℕ → Turn ratios
turn_at now = record {
  now = now;
  sync = ok 100;
  refresh = err "busy";
  balance = ok 5000;
  draws_transaction = true;
  shared = record {
    agent_registry = some two_agents;
    user_info = λ id. none;
    miner_info = λ id. none;
  };
  choice = 0;
  amount = ratios.of_ℕ 1;
  recovers = false;
}

abbrev three_turns : List (Turn ratios)
three_turns =
    turn_at (shadow_epoch + 10)
    ∷ turn_at (shadow_epoch + 18000)
    ∷ turn_at (shadow_epoch + 18060)
    ∷ []

three_turns-IsOrdered : IsOrdered ratios shadow_epoch three_turns
unfolding IsOrdered
three_turns-IsOrdered = (omega arith, (omega arith, (omega arith, tt)))

run_turns-PaysAfter_example :
    All
      (PaysAfter ratios (setup_activity 18000 shadow_epoch new_user).activity_start_time)
      (run_turns ratios three_turns (setup_activity 18000 shadow_epoch new_user))
run_turns-PaysAfter_example =
    run_turns-PaysAfter ratios 18000 shadow_epoch new_user three_turns three_turns-IsOrdered

abbrev payment : Transfer
payment = record {
  recipient =
      Members.member "id" (Json.text "miner-001")
        (Members.member "wallet_address" (Json.text "4M") Members.empty);
  address = Json.text "4M";
  amount = 10 ^ 12;
}

pays_the_miner : maybe_send ratios (turn_at (shadow_epoch + 18000)) new_user ≡ ok (some payment)
unfolding maybe_send ratios xmr_to_atomic
pays_the_miner = refl

maybe_send-IsPayment_example :
    IsPayment ratios (turn_at (shadow_epoch + 18000)).shared new_user (some payment)
maybe_send-IsPayment_example =
    maybe_send-IsPayment ratios (turn_at (shadow_epoch + 18000)) new_user (some payment)
      pays_the_miner

-- ===== src/Tests/Turns.antt =====
-- Examples of the laws of the agent's turns.
use mathlib.Core.Path.{subst}
use zano_shadow_sim.Base.{
  ◌∷◌, ◌≡◌, refl, true, none, some, [], contains, is_some, update, lower, text_eq,
}
use zano_shadow_sim.Base.Dict.{lookup}
use zano_shadow_sim.Distributor.Send.{ids, get_recipient_address, usable}
use zano_shadow_sim.Distributor.Run.{
  read_funding_status, attribute_flag, parse_bool, find_miner, query_miner_wallet_address,
  miner_address, combine_miners, discover_miners,
}
use zano_shadow_sim.Distributor.Run.Cycle.{
  miners_with_wallets, as_recipient, count_funded, perform_initial_funding, run_iteration,
  try_miners,
}
use zano_shadow_sim.Distributor.Run.Resume.{IsSound, resumed}
use zano_shadow_sim.Distributor.Run.Turns.{IsRegistry, IterationSound, run_iteration-IsSound}
use zano_shadow_sim.Distributor.Run.Ends.{
  IsVisible, IsInvisible, run_iteration-returns, perform_initial_funding_endless,
}
use zano_shadow_sim.Timing.Batches.Schedule.{IsDistinct}
use zano_shadow_sim.Distributor.Run.Failover.{IsPaid, try_miners-IsPaid}
use zano_shadow_sim.Tests.{alice, bob, quiet, hidden, fresh}
use zano_shadow_sim.Tests.Distributor.{no_books-IsConsistent}

quiet-IsRegistry : IsRegistry quiet
unfolding contains
quiet-IsRegistry = record {
  registry_distinct = λ w agents e.
      subst (λ o. IsDistinct (ids (elim o [ none ↦ [] | some a ↦ a ]))) e
        (refl, (refl, (refl, tt)));
}

fresh-IsSound : IsSound fresh
unfolding IsSound resumed read_funding_status update
fresh-IsSound = no_books-IsConsistent

run_iteration-IsSound_example : IterationSound quiet (run_iteration quiet 2 fresh 100)
run_iteration-IsSound_example =
    run_iteration-IsSound quiet 2 fresh 100 quiet-IsRegistry fresh-IsSound

quiet-IsVisible : IsVisible quiet
unfolding discover_miners combine_miners attribute_flag lookup parse_bool lower text_eq find_miner
    miners_with_wallets miner_address
quiet-IsVisible = record { visible = λ md md' w unseen answers. refl }

run_iteration-returns_example : is_some (run_iteration quiet 2 fresh 100) ≡ true
run_iteration-returns_example = run_iteration-returns quiet 0 fresh 100 quiet-IsVisible

hidden-IsInvisible : IsInvisible hidden
unfolding discover_miners combine_miners attribute_flag lookup parse_bool lower text_eq find_miner
    miners_with_wallets miner_address query_miner_wallet_address count_funded usable
    get_recipient_address as_recipient
hidden-IsInvisible = record { found = λ md w. refl; unseen = λ md w. refl; answers = λ md w. refl }

perform_initial_funding_endless_example : perform_initial_funding hidden 5 fresh 100 ≡ none
unfolding read_funding_status
perform_initial_funding_endless_example =
    perform_initial_funding_endless hidden 5 fresh 100 hidden-IsInvisible refl refl

try_miners-IsPaid_example :
    IsPaid quiet fresh (alice ∷ bob ∷ []) (try_miners quiet 1 [] fresh (alice ∷ bob ∷ []) 100).0
try_miners-IsPaid_example = try_miners-IsPaid quiet fresh 1 [] (alice ∷ bob ∷ []) 100

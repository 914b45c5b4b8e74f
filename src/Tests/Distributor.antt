-- ===== src/Tests/Distributor.antt =====
-- Examples of the laws of one batch, one selection and one round of the initial funding.
use mathlib.Core.List.{flatten}
use zano_shadow_sim.Base.{◌≡◌, refl, true, false, some, [], ◌∷◌, arith, eq_iff, All, contains}
use zano_shadow_sim.Base.Dict.{lookup}
use zano_shadow_sim.Distributor.{Books, DrawsInRange}
use zano_shadow_sim.Distributor.Selection.{select_miner_excluding}
use zano_shadow_sim.Distributor.Selection.Laws.{IsSelection, select_miner_excluding-IsSelection}
use zano_shadow_sim.Distributor.Send.{
  send_batch_transaction, look_up, get_recipient_address, retry_with_backoff,
}
use zano_shadow_sim.Distributor.Send.Laws.{IsReport, send_batch_transaction-IsReport}
use zano_shadow_sim.Distributor.Funding.{record_failure, batch_recipients, process_funding_batches}
use zano_shadow_sim.Distributor.Funding.Bookkeeping.{IsConsistent, record_failure_counts}
use zano_shadow_sim.Distributor.Funding.Slices.{IsPart, batch_recipients_parts}
use zano_shadow_sim.Distributor.Funding.Process.{process_funding_batches-IsConsistent}
use zano_shadow_sim.Distributor.Funding.Unreachable.{
  IsUnreachable, process_funding_batches_unreachable,
}
use zano_shadow_sim.Tests.{alice, bob, miner, quiet, fresh, no_books}

quiet-DrawsInRange : DrawsInRange quiet
quiet-DrawsInRange = record { choice_lt = λ n w h. h }

send_batch_transaction-IsReport_example :
    IsReport (alice ∷ bob ∷ []) (send_batch_transaction quiet fresh miner (alice ∷ bob ∷ []) 100).0
send_batch_transaction-IsReport_example =
    send_batch_transaction-IsReport quiet fresh miner (alice ∷ bob ∷ []) 100

select_miner_excluding-IsSelection_example :
    IsSelection
      ("miner-002" ∷ [])
      (miner ∷ [])
      (select_miner_excluding quiet fresh ("miner-002" ∷ []) 100).0
select_miner_excluding-IsSelection_example =
    select_miner_excluding-IsSelection quiet quiet-DrawsInRange fresh ("miner-002" ∷ []) 100

-- Bob has failed four times.
abbrev late_books : Books
late_books = record {
  funded = "alice" ∷ [];
  failed = "bob" ∷ [];
  permanent = [];
  retries = ("bob", 4) ∷ [];
}

record_failure_counts_example :
    let after = record_failure late_books "bob" in
    (lookup "bob" after.retries ≡ some 5)
    × (contains "bob" after.permanent ≡ true)
    × (contains "bob" after.failed ≡ false)
unfolding contains lookup
record_failure_counts_example =
    record_failure_counts late_books "bob" 4 (λ e. ground (arith, eq_iff "bob" "", e)) (refl, refl)
      refl

pub no_books-IsConsistent : IsConsistent no_books
unfolding contains lookup
no_books-IsConsistent = record {
  given_up_unfunded = λ x h. refl;
  given_up_not_failed = λ x h. refl;
  failed_unfunded = λ x h. refl;
  counts = λ x n h k. cc;
}

batch_recipients_parts_example :
    (flatten (batch_recipients fresh (alice ∷ bob ∷ [])) ≡ alice ∷ bob ∷ [])
    × All (IsPart 8) (batch_recipients fresh (alice ∷ bob ∷ []))
batch_recipients_parts_example = batch_recipients_parts fresh (alice ∷ bob ∷ [])

process_funding_batches-IsConsistent_example :
    IsConsistent
      (process_funding_batches quiet
        (batch_recipients fresh (alice ∷ bob ∷ []))
        1
        []
        fresh
        100).1.books
unfolding contains
process_funding_batches-IsConsistent_example =
    process_funding_batches-IsConsistent quiet fresh (alice ∷ bob ∷ []) 1 100 (refl, (refl, tt))
      (λ x h. (refl, refl)) no_books-IsConsistent

bob-IsUnreachable : IsUnreachable quiet (bob ∷ [])
unfolding look_up get_recipient_address retry_with_backoff
bob-IsUnreachable = record { unreachable = λ w. refl }

process_funding_batches_unreachable_example :
    let (completed, md', w') =
      process_funding_batches quiet ((bob ∷ []) ∷ (alice ∷ []) ∷ []) 1 [] fresh 100 in
    (completed ≡ false)
    × (md'.books.retries ≡ [])
    × (md'.books.permanent ≡ [])
    × (md'.books.funded ≡ [])
process_funding_batches_unreachable_example =
    process_funding_batches_unreachable quiet (bob ∷ []) ((alice ∷ []) ∷ []) 1 [] fresh 100
      bob-IsUnreachable

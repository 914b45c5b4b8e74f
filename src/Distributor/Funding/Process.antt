-- ===== src/Distributor/Funding/Process.antt =====
-- The loop over the batches, `_process_funding_batches` of agents/miner_distributor/agent.py.
use zano_shadow_sim.Base.{
  ℕ, ◌≡◌, refl, inl, inr, max, true, false, List, [], ◌∷◌, String, arith, ◌∙◌, contains,
  contains-cons, add, length, All, Bool-cases, Option-cases, eq_iff,
}
use zano_shadow_sim.Float.{Float}
use zano_shadow_sim.Distributor.{Agent, Miner, Books, Md, Env}
use zano_shadow_sim.Distributor.Send.{Outcome, ids, send_batch_transaction}
use zano_shadow_sim.Distributor.Send.Laws.{IsReport, send_batch_transaction-IsReport}
use zano_shadow_sim.Distributor.Funding.{
  settle_batch, fail_batch, save, write_funding_status, slices, batch_recipients, select_or_reset,
  retry_failed_batch, process_batch, process_funding_batches,
}
use zano_shadow_sim.Distributor.Funding.Bookkeeping.{
  IsConsistent, IsOpen, IsKept, settle_batch-IsKept, settle_batch-IsConsistent,
  fail_batch-IsConsistent,
}
use zano_shadow_sim.Timing.Batches.Schedule.{IsDistinct}
use zano_shadow_sim.Distributor.Funding.Slices.{AreApart, slices-AreApart, slices-All}

-- What one round does to the books: the batch fails as a whole, or a report on it is settled.
data Round (batch : List Agent) (b : Books) : Books → Type 0 where
  fails : {b' : Books} → b' ≡ fail_batch batch b → Round batch b b'
  settles : {b' : Books} (o : Outcome) → IsReport batch o → b' ≡ settle_batch o b → Round batch b b'

module _ {D : Float} (E : Env D) where
  retry_failed_batch-Round :
      (md : Md D) (batch : List Agent) (m : Miner) (exhausted : List String) (total : ℕ)
      (w : E.World)
      → Round batch md.books (retry_failed_batch E md batch m exhausted total w).1.books
  unfolding retry_failed_batch save write_funding_status
  retry_failed_batch-Round md batch m exhausted total w =
      let s = select_or_reset E md (add m.agent_id exhausted) total w in
      elim (Option-cases s.0) [
        | inl e ↦ rw (e, retry_failed_batch) (fails refl)
        | inr (r, e) ↦
            let sent = send_batch_transaction E md r batch s.2 in
            rw (e, retry_failed_batch)
              (elim (Bool-cases sent.0.success) [
                | inl good ↦
                    rw good (settles sent.0 (send_batch_transaction-IsReport E md r batch s.2) refl)
                | inr bad ↦ rw bad (fails refl)
              ])
      ]

  process_batch-Round :
      (md : Md D) (batch : List Agent) (exhausted : List String) (total : ℕ) (w : E.World)
      → Round batch md.books (process_batch E md batch exhausted total w).1.books
  unfolding process_batch save write_funding_status
  process_batch-Round md batch exhausted total w =
      let s = select_or_reset E md exhausted total w in
      elim (Option-cases s.0) [
        | inl e ↦ rw (e, process_batch) (fails refl)
        | inr (m, e) ↦
            let sent = send_batch_transaction E md m batch s.2 in
            rw (e, process_batch)
              (elim (Bool-cases sent.0.success) [
                | inl good ↦
                    rw good (settles sent.0 (send_batch_transaction-IsReport E md m batch s.2) refl)
                | inr bad ↦ rw bad (retry_failed_batch-Round md batch m s.1 total sent.1)
              ])
      ]

All-of_contains :
    (P : String → Type 0) (xs : List String)
    → ((x : String) → contains x xs ≡ true → P x)
    → All P xs
All-of_contains P [] h = tt
All-of_contains P (x ∷ xs) h = (
  h x (ground (arith, contains-cons x x xs, eq_iff x x)),
  All-of_contains P xs (λ y k. h y (ground (arith, contains-cons y x xs))),
)

-- Every recipient of the batch is open.
abbrev IsFresh : Books → List Agent → Type 0
IsFresh b batch = (x : String) → contains x (ids batch) ≡ true → IsOpen b x

Round-IsConsistent :
    {batch : List Agent} {b b' : Books}
    → IsConsistent b
    → IsFresh b batch
    → Round batch b b'
    → IsConsistent b'
Round-IsConsistent {batch} {b} c fresh (fails e) = rw e (fail_batch-IsConsistent batch b c fresh)
Round-IsConsistent {batch} {b} c fresh (settles o r e) = rw e (
    settle_batch-IsConsistent o b c
      (All-of_contains _ o.funded (λ x h. (fresh x (r.funded_known x h)).1)))

-- A round decides nothing about who is not in its batch.
Round-IsKept :
    {batch : List Agent} {b b' : Books} (x : String)
    → contains x (ids batch) ≡ false
    → Round batch b b'
    → IsKept x b b'
Round-IsKept {batch} {b} x out (fails e) = rw e (unfold fail_batch in (refl, refl))
Round-IsKept {batch} {b} x out (settles o r e) = rw e (
    settle_batch-IsKept x o b (ground (arith, r.funded_known x)) (ground (arith, r.failed_known x)))

Round-IsFresh :
    {batch : List Agent} {b b' : Books} (batches : List (List Agent))
    → Round batch b b'
    → All
        (λ other. (x : String) → contains x (ids batch) ≡ true → contains x (ids other) ≡ false)
        batches
    → All (IsFresh b) batches
    → All (IsFresh b') batches
Round-IsFresh [] r apart fresh = tt
Round-IsFresh (other ∷ batches) r (a, apart) (f, fresh) = (
  (λ x h.
      let kept = Round-IsKept x (ground (arith, a x)) r in
      (kept.0 ∙ (f x h).0, kept.1 ∙ (f x h).1)),
  Round-IsFresh batches r apart fresh,
)

module _ {D : Float} (E : Env D) where
  process-IsConsistent :
      (batches : List (List Agent)) (total : ℕ) (exhausted : List String) (md : Md D) (w : E.World)
      → AreApart batches
      → All (IsFresh md.books) batches
      → IsConsistent md.books
      → IsConsistent (process_funding_batches E batches total exhausted md w).1.books
  unfolding process_funding_batches
  process-IsConsistent [] total exhausted md w apart fresh c = c
  process-IsConsistent (batch ∷ batches) total exhausted md w apart fresh c =
      let round = process_batch E md batch exhausted total w in
      let step = process_batch-Round E md batch exhausted total w in
      let c' = Round-IsConsistent c fresh.0 step in
      elim (Bool-cases round.0) [
        | inl go ↦ rw go (
            process-IsConsistent batches total round.2 round.1 round.3 apart.1
              (Round-IsFresh batches step apart.0 fresh.1) c')
        | inr stop ↦ rw stop c'
      ]

  -- The loop over the batches of distinct recipients, none of them funded or given up, keeps
  -- consistent books consistent, whatever the wallets answer.
  pub process_funding_batches-IsConsistent :
      (md : Md D) (unfunded : List Agent) (total : ℕ) (w : E.World)
      → IsDistinct (ids unfunded)
      → ((x : String) → contains x (ids unfunded) ≡ true → IsOpen md.books x)
      → IsConsistent md.books
      → IsConsistent
          (process_funding_batches E (batch_recipients md unfunded) total [] md w).1.books
  unfolding batch_recipients
  process_funding_batches-IsConsistent md unfunded total w u fresh c =
      process-IsConsistent (slices (length unfunded) (max 1 md.md_n_recipients) unfunded) total []
        md w (slices-AreApart (length unfunded) (max 1 md.md_n_recipients) unfunded u)
        (slices-All (IsOpen md.books) (length unfunded) (max 1 md.md_n_recipients) unfunded fresh) c

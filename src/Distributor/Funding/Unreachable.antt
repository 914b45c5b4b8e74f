-- ===== src/Distributor/Funding/Unreachable.antt =====
-- A batch of recipients of whom nobody has an address, in agents/miner_distributor/agent.py.
use zano_shadow_sim.Base.{
  ℕ, ◌≡◌, refl, inl, inr, Bool, true, false, List, ◌∷◌, String, is_empty, add, Bool-cases,
  Option-cases,
}
use zano_shadow_sim.Float.{Float}
use zano_shadow_sim.Distributor.{Agent, Miner, Md, Env}
use zano_shadow_sim.Distributor.Send.{look_up, send_batch_transaction}
use zano_shadow_sim.Distributor.Funding.{
  fail_batch, save, write_funding_status, select_or_reset, retry_failed_batch, process_batch,
  process_funding_batches,
}

module _ {D : Float} (E : Env D) where
  -- Nobody in the batch has an address, at any time.
  pub record IsUnreachable (batch : List Agent) : Type 0 where
    pub unreachable : (w : E.World) → is_empty (look_up E batch w).0 ≡ true

  send-fails :
      (md : Md D) (m : Miner) (batch : List Agent) (w : E.World)
      → IsUnreachable batch
      → (send_batch_transaction E md m batch w).0.success ≡ false
  unfolding send_batch_transaction
  send-fails md m batch w u = elim (Bool-cases (is_empty batch)) [
    | inl e ↦ rw e refl
    | inr e ↦ rw (e, u.unreachable w) refl
  ]

  -- What a round does that only marks the batch as failed for now.
  abbrev IsStopped : List Agent → Md D → Bool × Md D × List String × E.World → Type 0
  IsStopped batch md (go_on, md', exhausted, w) =
      (go_on ≡ false) × (md'.books ≡ fail_batch batch md.books)

  retry-IsStopped :
      (md : Md D) (batch : List Agent) (m : Miner) (exhausted : List String) (total : ℕ)
      (w : E.World)
      → IsUnreachable batch
      → IsStopped batch md (retry_failed_batch E md batch m exhausted total w)
  unfolding retry_failed_batch save write_funding_status
  retry-IsStopped md batch m exhausted total w u =
      let s = select_or_reset E md (add m.agent_id exhausted) total w in
      elim (Option-cases s.0) [
        | inl e ↦ rw (e, retry_failed_batch) (refl, refl)
        | inr (r, e) ↦ rw (e, send-fails md r batch s.2 u, retry_failed_batch) (refl, refl)
      ]

  process-IsStopped :
      (md : Md D) (batch : List Agent) (exhausted : List String) (total : ℕ) (w : E.World)
      → IsUnreachable batch
      → IsStopped batch md (process_batch E md batch exhausted total w)
  unfolding process_batch save write_funding_status
  process-IsStopped md batch exhausted total w u =
      let s = select_or_reset E md exhausted total w in
      elim (Option-cases s.0) [
        | inl e ↦ rw (e, process_batch) (refl, refl)
        | inr (m, e) ↦
            let sent = send_batch_transaction E md m batch s.2 in
            rw (e, send-fails md m batch s.2 u, process_batch)
              (retry-IsStopped md batch m s.1 total sent.1 u)
      ]

  -- A first batch in which nobody ever has an address stops the initial funding, and neither the
  -- counts, nor the given-up recipients, nor the funded ones change.
  pub process_funding_batches_unreachable :
      (batch : List Agent) (batches : List (List Agent)) (total : ℕ) (exhausted : List String)
      (md : Md D) (w : E.World)
      → IsUnreachable batch
      → let (completed, md', w') =
          process_funding_batches E (batch ∷ batches) total exhausted md w in
        (completed ≡ false)
        × (md'.books.retries ≡ md.books.retries)
        × (md'.books.permanent ≡ md.books.permanent)
        × (md'.books.funded ≡ md.books.funded)
  unfolding process_funding_batches fail_batch
  process_funding_batches_unreachable batch batches total exhausted md w u =
      let (stops, books) = process-IsStopped md batch exhausted total w u in
      rw (stops, books, process_funding_batches) (refl, refl, refl, refl)

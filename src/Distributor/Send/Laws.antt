-- ===== src/Distributor/Send/Laws.antt =====
-- What a batch transaction reports about its recipients.
use zano_shadow_sim.Base.{
  ℕ, zero, suc, ◌+◌, ◌*◌, ◌^◌, ◌≡◌, refl, ◌⊎◌, inl, inr, Bool, true, false, not, ◌&&◌, ◌||◌, List,
  [], ◌∷◌, ◌++◌, String, arith, ◌∙◌, eq_iff, is_empty, contains, contains-nil, contains-cons,
  contains-append, ◌==◌, if◌then◌else◌, Bool-cases,
}
use zano_shadow_sim.Float.{Float}
use zano_shadow_sim.Distributor.{Agent, Miner, Destination, Reply, sent, raised, Md, Env}
use zano_shadow_sim.Distributor.Send.{
  Outcome, failure, ids, funded_ids, build_destinations, get_recipient_address, look_up, settle,
  attempts, send_batch_transaction, success_outcome, xmr_to_atomic,
}
use zano_shadow_sim.Timing.Batches.Schedule.{IsDistinct}

abbrev vids : List (Agent × String) → List String
vids [] = []
vids ((r, address) ∷ valid) = r.id ∷ vids valid

contains-funded_ids :
    (failed seen : List String) (valid : List (Agent × String)) (x : String)
    → contains x (funded_ids failed seen valid)
      ≡ (contains x (vids valid) && not (contains x seen || contains x failed))
unfolding funded_ids
contains-funded_ids failed seen [] x = rw contains-nil
contains-funded_ids failed seen ((r, address) ∷ valid) x = ground (
  arith,
  contains-funded_ids failed seen valid x,
  contains-funded_ids failed (r.id ∷ seen) valid x,
  contains-cons x r.id (vids valid),
  contains-cons x r.id seen,
  contains-cons x r.id (funded_ids failed (r.id ∷ seen) valid),
  eq_iff x r.id,
)

IsDistinct-funded_ids :
    (failed seen : List String) (valid : List (Agent × String))
    → IsDistinct (funded_ids failed seen valid)
unfolding funded_ids
IsDistinct-funded_ids failed seen [] = tt
IsDistinct-funded_ids failed seen ((r, address) ∷ valid) =
    elim (Bool-cases (contains r.id seen || contains r.id failed)) [
      | inl e ↦ rw e (IsDistinct-funded_ids failed seen valid)
      | inr e ↦ rw e (
        contains-funded_ids failed (r.id ∷ seen) valid r.id
            ∙ ground (arith, contains-cons r.id r.id seen, eq_iff r.id r.id),
        IsDistinct-funded_ids failed (r.id ∷ seen) valid,
      )
    ]

-- A batch's report: nobody is funded twice or both funded and failed, only recipients are named,
-- a success names each of them, and a failure funds nobody.
pub record IsReport (recipients : List Agent) (o : Outcome) : Type 0 where
  pub distinct : IsDistinct o.funded
  pub apart : (x : String) → contains x o.funded ≡ true → contains x o.failed ≡ false
  pub funded_known : (x : String) → contains x o.funded ≡ true → contains x (ids recipients) ≡ true
  pub failed_known : (x : String) → contains x o.failed ≡ true → contains x (ids recipients) ≡ true
  pub covers :
      o.success ≡ true
      → (x : String) → contains x (ids recipients) ≡ true
      → (contains x o.funded || contains x o.failed) ≡ true
  pub funds_nobody : o.success ≡ false → o.funded ≡ []

failure-IsReport : (recipients : List Agent) → IsReport recipients (failure (ids recipients))
failure-IsReport recipients = record {
  distinct = tt;
  apart = λ x h. cc (contains-nil x);
  funded_known = λ x h. cc (contains-nil x);
  failed_known = λ x h. h;
  covers = λ h. cc;
  funds_nobody = λ h. refl;
}

nothing-IsReport : (recipients : List Agent) → IsReport recipients (failure [])
nothing-IsReport recipients = record {
  distinct = tt;
  apart = λ x h. cc (contains-nil x);
  funded_known = λ x h. cc (contains-nil x);
  failed_known = λ x h. cc (contains-nil x);
  covers = λ h. cc;
  funds_nobody = λ h. refl;
}

IsReport-if :
    {W : Type 0} {recipients : List Agent} (b : Bool) (o p : Outcome × W)
    → IsReport recipients o.0
    → IsReport recipients p.0
    → IsReport recipients (if b then o else p).0
IsReport-if true o p h k = h
IsReport-if false o p h k = k

module _ {D : Float} (md : Md D) (amount : ℕ) where
  contains-invalid :
      (valid : List (Agent × String)) (x : String)
      → contains x (build_destinations md amount valid).1 ≡ true
      → contains x (vids valid) ≡ true
  unfolding build_destinations
  contains-invalid [] x h = h
  contains-invalid ((r, address) ∷ valid) x h = ground (
    arith,
    contains-invalid valid x,
    contains-cons x r.id (vids valid),
    contains-cons x r.id (build_destinations md amount valid).1,
  )

⊎-cases : {A B : Type 0} (s : A ⊎ B) → ((a : A) × (s ≡ inl a)) ⊎ ((b : B) × (s ≡ inr b))
⊎-cases (inl a) = inl (a, refl)
⊎-cases (inr b) = inr (b, refl)

module _ {D : Float} (E : Env D) where
  contains-look_up :
      (recipients : List Agent) (w : E.World) (x : String)
      → (contains x (vids (look_up E recipients w).0) || contains x (look_up E recipients w).1)
        ≡ contains x (ids recipients)
  unfolding look_up
  contains-look_up [] w x = rw contains-nil
  contains-look_up (r ∷ recipients) w x =
      let a = get_recipient_address E r w in
      ground (
        arith,
        contains-look_up recipients a.1 x,
        contains-cons x r.id (ids recipients),
        contains-cons x r.id (vids (look_up E recipients a.1).0),
        contains-cons x r.id (look_up E recipients a.1).1,
      )

  module _ (miner : Miner) (recipients : List Agent) (valid : List (Agent × String))
      (failed : List String) (destinations : List Destination) where
    abbrev IsEither : Outcome → Type 0
    IsEither o =
        (o ≡ failure (ids recipients))
        ⊎ (o ≡ success_outcome E miner recipients valid failed destinations)

    settle-IsEither :
        (reply : Reply) (w : E.World) (o : Outcome)
        → (settle E miner recipients valid failed destinations reply w).0 ≡ inl o
        → IsEither o
    unfolding settle
    settle-IsEither (raised message) w o h = ground arith
    settle-IsEither (sent hash_list single) w o h = ground arith

    attempts-IsEither :
        (left attempt : ℕ) (w : E.World)
        → IsEither (attempts E miner recipients valid failed destinations left attempt w).0
    unfolding attempts
    attempts-IsEither zero attempt w = inl refl
    attempts-IsEither (suc left) attempt w =
        let reply = E.transfer_split miner destinations w in
        let settled = settle E miner recipients valid failed destinations reply.0 reply.1 in
        elim (⊎-cases settled.0) [
          | inl (o, e) ↦ rw (e, attempts) (settle-IsEither reply.0 reply.1 o e)
          | inr (message, e) ↦
              rw (e, attempts)
                (ground (
                  arith,
                  attempts-IsEither left (attempt + 1) (E.sleep (5 * (attempt + 1)) settled.1),
                  attempts-IsEither left (attempt + 1) (E.sleep (2 ^ attempt) settled.1),
                ))
        ]

module _ {D : Float} (E : Env D) (md : Md D) (miner : Miner) where
  success-IsReport :
      (recipients : List Agent) (w : E.World) (amount : ℕ)
      → let (valid, lookup_failed, w') = look_up E recipients w in
        let (destinations, invalid) = build_destinations md amount valid in
        IsReport recipients
          (success_outcome E miner recipients valid (lookup_failed ++ invalid) destinations)
  success-IsReport recipients w amount =
      let valid = (look_up E recipients w).0 in
      let lookup_failed = (look_up E recipients w).1 in
      let invalid = (build_destinations md amount valid).1 in
      record {
        distinct = IsDistinct-funded_ids (lookup_failed ++ invalid) [] valid;
        apart = λ x h. ground (arith, contains-funded_ids (lookup_failed ++ invalid) [] valid x);
        funded_known = λ x h. ground (
          arith,
          contains-funded_ids (lookup_failed ++ invalid) [] valid x,
          contains-look_up E recipients w x,
        );
        failed_known = λ x h. ground (
          arith,
          contains-append x lookup_failed invalid,
          contains-invalid md amount valid x,
          contains-look_up E recipients w x,
        );
        covers = λ s x h. ground (
          arith,
          contains-funded_ids (lookup_failed ++ invalid) [] valid x,
          contains-look_up E recipients w x,
          contains-append x lookup_failed invalid,
          contains-nil x,
        );
        funds_nobody = λ h. cc;
      }

  -- On every path, retries and errors included, the report of a batch funds nobody twice, puts
  -- nobody in both lists and names only recipients; a success names every recipient, and a
  -- failure funds nobody.
  pub send_batch_transaction-IsReport :
      (recipients : List Agent) (w : E.World)
      → IsReport recipients (send_batch_transaction E md miner recipients w).0
  unfolding send_batch_transaction
  send_batch_transaction-IsReport recipients w =
      let amount = xmr_to_atomic D md.md_output_amount in
      let valid = (look_up E recipients w).0 in
      let built = build_destinations md amount valid in
      let failed = (look_up E recipients w).1 ++ built.1 in
      let tried =
        attempts E miner recipients valid failed built.0 md.max_retries 0
          (look_up E recipients w).2 in
      IsReport-if (is_empty recipients) _ _ (nothing-IsReport recipients) (
        IsReport-if (is_empty valid) _ _ (failure-IsReport recipients) (
          IsReport-if (amount == 0) _ _ (failure-IsReport recipients) (
            IsReport-if (is_empty built.0) _ _ (failure-IsReport recipients)
              (elim (attempts-IsEither E miner recipients valid failed built.0 md.max_retries 0
                (look_up E recipients w).2) [
                  | inl e ↦ rw e (failure-IsReport recipients)
                  | inr e ↦ rw e (success-IsReport recipients w amount)
                ]))))

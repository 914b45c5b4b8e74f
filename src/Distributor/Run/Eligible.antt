-- ===== src/Distributor/Run/Eligible.antt =====
-- Who the initial funding turns to: `_collect_eligible_recipients`.
use zano_shadow_sim.Base.{
  ◌≡◌, true, false, ◌||◌, List, [], ◌∷◌, String, arith, contains, contains-nil, contains-cons,
  eq_iff, inl, inr, Bool-cases,
}
use zano_shadow_sim.Distributor.{Agent, Books}
use zano_shadow_sim.Distributor.Send.{ids}
use zano_shadow_sim.Distributor.Funding.Bookkeeping.{IsOpen}
use zano_shadow_sim.Distributor.Run.{is_eligible, all_eligible, unfunded_of}
use zano_shadow_sim.Timing.Batches.Schedule.{IsDistinct}

contains-all_eligible :
    (miner_ids : List String) (agents : List Agent) (x : String)
    → contains x (ids agents) ≡ false
    → contains x (ids (all_eligible miner_ids agents)) ≡ false
unfolding all_eligible
contains-all_eligible miner_ids [] x h = h
contains-all_eligible miner_ids (a ∷ agents) x h = ground (
  arith,
  contains-all_eligible miner_ids agents x,
  contains-cons x a.id (ids agents),
  contains-cons x a.id (ids (all_eligible miner_ids agents)),
)

contains-unfunded_of :
    (b : Books) (agents : List Agent) (x : String)
    → contains x (ids agents) ≡ false
    → contains x (ids (unfunded_of b agents)) ≡ false
unfolding unfunded_of
contains-unfunded_of b [] x h = h
contains-unfunded_of b (a ∷ agents) x h = ground (
  arith,
  contains-unfunded_of b agents x,
  contains-cons x a.id (ids agents),
  contains-cons x a.id (ids (unfunded_of b agents)),
)

IsDistinct-all_eligible :
    (miner_ids : List String) (agents : List Agent)
    → IsDistinct (ids agents)
    → IsDistinct (ids (all_eligible miner_ids agents))
unfolding all_eligible
IsDistinct-all_eligible miner_ids [] h = tt
IsDistinct-all_eligible miner_ids (a ∷ agents) (f, h) =
    elim (Bool-cases (is_eligible miner_ids a)) [
      | inl e ↦ rw e (
        contains-all_eligible miner_ids agents a.id f,
        IsDistinct-all_eligible miner_ids agents h,
      )
      | inr e ↦ rw e (IsDistinct-all_eligible miner_ids agents h)
    ]

IsDistinct-unfunded_of :
    (b : Books) (agents : List Agent)
    → IsDistinct (ids agents)
    → IsDistinct (ids (unfunded_of b agents))
unfolding unfunded_of
IsDistinct-unfunded_of b [] h = tt
IsDistinct-unfunded_of b (a ∷ agents) (f, h) =
    elim (Bool-cases (contains a.id b.funded || contains a.id b.permanent)) [
      | inl e ↦ rw e (IsDistinct-unfunded_of b agents h)
      | inr e ↦ rw e (contains-unfunded_of b agents a.id f, IsDistinct-unfunded_of b agents h)
    ]

-- Distinct ids in the registry stay distinct.
pub unfunded_of-IsDistinct :
    (b : Books) (miner_ids : List String) (registry : List Agent)
    → IsDistinct (ids registry)
    → IsDistinct (ids (unfunded_of b (all_eligible miner_ids registry)))
unfunded_of-IsDistinct b miner_ids registry h =
    IsDistinct-unfunded_of b (all_eligible miner_ids registry)
      (IsDistinct-all_eligible miner_ids registry h)

-- Those to be funded are neither funded nor given up.
pub unfunded_of-IsOpen :
    (b : Books) (agents : List Agent) (x : String)
    → contains x (ids (unfunded_of b agents)) ≡ true
    → IsOpen b x
unfolding unfunded_of
unfunded_of-IsOpen b [] x h = cc (contains-nil x)
unfunded_of-IsOpen b (a ∷ agents) x h = ground (
  arith,
  unfunded_of-IsOpen b agents x,
  contains-cons x a.id (ids (unfunded_of b agents)),
  eq_iff x a.id,
)

-- Every eligible agent is funded, given up, or among those to be funded.
pub all_eligible-covered :
    (b : Books) (agents : List Agent) (x : String)
    → contains x (ids agents) ≡ true
    → (contains x b.funded || (contains x b.permanent || contains x (ids (unfunded_of b agents))))
      ≡ true
unfolding unfunded_of
all_eligible-covered b [] x h = cc (contains-nil x)
all_eligible-covered b (a ∷ agents) x h = ground (
  arith,
  all_eligible-covered b agents x,
  contains-cons x a.id (ids agents),
  contains-cons x a.id (ids (unfunded_of b agents)),
  eq_iff x a.id,
)

-- ===== src/Distributor/Funding/Slices.antt =====
-- How `_batch_recipients` of agents/miner_distributor/agent.py cuts the recipients.
use mathlib.Core.List.{flatten}
use zano_shadow_sim.Base.{
  ℕ, zero, suc, ◌≤◌, ◌<◌, ◌≡◌, refl, max, true, false, List, [], ◌∷◌, ◌++◌, String, arith, ap, ◌∙◌,
  contains, contains-nil, contains-cons, length, take, drop, take-append-drop, length-drop,
  length-take, All, eq_iff,
}
use zano_shadow_sim.Float.{Float}
use zano_shadow_sim.Distributor.{Agent, Md}
use zano_shadow_sim.Distributor.Send.{ids}
use zano_shadow_sim.Distributor.Funding.{slices, batch_recipients}
use zano_shadow_sim.Timing.Batches.Schedule.{IsDistinct}

-- A part of a cut: not empty and of at most `size` agents.
abbrev pub IsPart : ℕ → List Agent → Type 0
IsPart size batch = (0 < length batch) × (length batch ≤ size)

slices-IsPart :
    (fuel size : ℕ) (agents : List Agent)
    → 0 < size
    → length agents ≤ fuel
    → (flatten (slices fuel size agents) ≡ agents) × All (IsPart size) (slices fuel size agents)
unfolding slices flatten
slices-IsPart zero size [] s h = (refl, tt)
slices-IsPart zero size (a ∷ agents) s h = absurd (omega arith)
slices-IsPart (suc fuel) size [] s h = (refl, tt)
slices-IsPart (suc fuel) size (a ∷ agents) s h =
    let rest =
      slices-IsPart fuel size (drop size (a ∷ agents)) s
        (omega (arith, length-drop size (a ∷ agents))) in
    (
      ap (λ t. take size (a ∷ agents) ++ t) rest.0 ∙ take-append-drop size (a ∷ agents),
      (
        (
          omega (arith, length-take size (a ∷ agents)),
          omega (arith, length-take size (a ∷ agents)),
        ),
        rest.1,
      ),
    )

-- Batches with no recipient in common.
abbrev pub AreApart : List (List Agent) → Type 0
AreApart [] = Unit
AreApart (batch ∷ batches) =
    All (λ other. (x : String) → contains x (ids batch) ≡ true → contains x (ids other) ≡ false)
      batches
    × AreApart batches

contains-drop :
    (n : ℕ) (agents : List Agent) (x : String)
    → contains x (ids agents) ≡ false
    → contains x (ids (drop n agents)) ≡ false
contains-drop zero agents x h = h
contains-drop (suc n) [] x h = h
contains-drop (suc n) (a ∷ agents) x h =
    contains-drop n agents x (ground (arith, contains-cons x a.id (ids agents)))

contains-take :
    (n : ℕ) (agents : List Agent) (x : String)
    → contains x (ids agents) ≡ false
    → contains x (ids (take n agents)) ≡ false
contains-take zero agents x h = contains-nil x
contains-take (suc n) [] x h = h
contains-take (suc n) (a ∷ agents) x h = ground (
  arith,
  contains-cons x a.id (ids agents),
  contains-cons x a.id (ids (take n agents)),
  contains-take n agents x,
)

IsDistinct-drop :
    (n : ℕ) (agents : List Agent) → IsDistinct (ids agents) → IsDistinct (ids (drop n agents))
IsDistinct-drop zero agents u = u
IsDistinct-drop (suc n) [] u = u
IsDistinct-drop (suc n) (a ∷ agents) (fresh, u) = IsDistinct-drop n agents u

-- A recipient among the first ones of a list without repetition is none of the others.
contains-take-drop :
    (n : ℕ) (agents : List Agent) (x : String)
    → IsDistinct (ids agents)
    → contains x (ids (take n agents)) ≡ true
    → contains x (ids (drop n agents)) ≡ false
contains-take-drop zero agents x u h = cc (contains-nil x)
contains-take-drop (suc n) [] x u h = contains-nil x
contains-take-drop (suc n) (a ∷ agents) x (fresh, u) h = ground (
  arith,
  contains-cons x a.id (ids (take n agents)),
  contains-take-drop n agents x u,
  contains-drop n agents x,
  eq_iff x a.id,
)

module _ {D : Float} (md : Md D) (agents : List Agent) where
  -- Joined together the batches are the recipients in order; none is empty, and none has more
  -- than `md_n_recipients` recipients, or than 1 where that is 0.
  pub batch_recipients_parts :
      (flatten (batch_recipients md agents) ≡ agents)
      × All (IsPart (max 1 md.md_n_recipients)) (batch_recipients md agents)
  unfolding batch_recipients
  batch_recipients_parts =
      slices-IsPart (length agents) (max 1 md.md_n_recipients) agents (omega arith) (omega arith)

contains-of_take :
    (n : ℕ) (agents : List Agent) (x : String)
    → contains x (ids (take n agents)) ≡ true
    → contains x (ids agents) ≡ true
contains-of_take n agents x h = ground (arith, contains-take n agents x)

contains-of_drop :
    (n : ℕ) (agents : List Agent) (x : String)
    → contains x (ids (drop n agents)) ≡ true
    → contains x (ids agents) ≡ true
contains-of_drop n agents x h = ground (arith, contains-drop n agents x)

slices-outside :
    (fuel size : ℕ) (agents : List Agent) (x : String)
    → contains x (ids agents) ≡ false
    → All (λ other. contains x (ids other) ≡ false) (slices fuel size agents)
unfolding slices
slices-outside zero size agents x h = tt
slices-outside (suc fuel) size [] x h = tt
slices-outside (suc fuel) size (a ∷ agents) x h = (
  contains-take size (a ∷ agents) x h,
  slices-outside fuel size (drop size (a ∷ agents)) x (contains-drop size (a ∷ agents) x h),
)

All-swap :
    (batch : List Agent) (batches : List (List Agent))
    → ((x : String)
        → contains x (ids batch) ≡ true
        → All (λ other. contains x (ids other) ≡ false) batches)
    → All
        (λ other. (x : String) → contains x (ids batch) ≡ true → contains x (ids other) ≡ false)
        batches
All-swap batch [] h = tt
All-swap batch (other ∷ batches) h = (λ x k. (h x k).0, All-swap batch batches (λ x k. (h x k).1))

pub slices-AreApart :
    (fuel size : ℕ) (agents : List Agent)
    → IsDistinct (ids agents)
    → AreApart (slices fuel size agents)
unfolding slices
slices-AreApart zero size agents u = tt
slices-AreApart (suc fuel) size [] u = tt
slices-AreApart (suc fuel) size (a ∷ agents) u = (
  All-swap (take size (a ∷ agents)) (slices fuel size (drop size (a ∷ agents))) (λ x k.
      slices-outside fuel size (drop size (a ∷ agents)) x
        (contains-take-drop size (a ∷ agents) x u k)),
  slices-AreApart fuel size (drop size (a ∷ agents)) (IsDistinct-drop size (a ∷ agents) u),
)

-- A property of every recipient's name holds in every batch.
pub slices-All :
    (P : String → Type 0) (fuel size : ℕ) (agents : List Agent)
    → ((x : String) → contains x (ids agents) ≡ true → P x)
    → All (λ batch. (x : String) → contains x (ids batch) ≡ true → P x) (slices fuel size agents)
unfolding slices
slices-All P zero size agents h = tt
slices-All P (suc fuel) size [] h = tt
slices-All P (suc fuel) size (a ∷ agents) h = (
  (λ x k. h x (contains-of_take size (a ∷ agents) x k)),
  slices-All P fuel size (drop size (a ∷ agents))
      (λ x k. h x (contains-of_drop size (a ∷ agents) x k)),
)

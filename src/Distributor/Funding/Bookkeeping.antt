-- ===== src/Distributor/Funding/Bookkeeping.antt =====
-- The sets of recipients and the counts of failed lookups in agents/miner_distributor/agent.py.
use zano_shadow_sim.Base.{
  ℕ, ◌+◌, ◌<◌, ◌≡◌, ◌≢◌, refl, true, false, not, ◌||◌, some, List, [], ◌∷◌, String, arith, leb,
  str_eq, eq_iff, contains, add, update, contains-nil, contains-cons, contains-add,
  contains-discard, All,
}
use zano_shadow_sim.Base.Dict.{lookup, lookup-insert, lookup-erase}
use zano_shadow_sim.Distributor.{Agent, Books}
use zano_shadow_sim.Distributor.Send.{Outcome, ids}
use zano_shadow_sim.Distributor.Funding.{
  permanent_failure_threshold, next_count, record_failure, record_recipient_failure, record_success,
  record_successes, settle_batch, fail_batch,
}

-- Nobody is in two of the sets, and only who has been given up has a count of 5.
pub record IsConsistent (b : Books) : Type 0 where
  pub given_up_unfunded : (x : String) → contains x b.permanent ≡ true → contains x b.funded ≡ false
  pub given_up_not_failed :
      (x : String) → contains x b.permanent ≡ true → contains x b.failed ≡ false
  pub failed_unfunded : (x : String) → contains x b.failed ≡ true → contains x b.funded ≡ false
  pub counts :
      (x : String) (n : ℕ)
      → lookup x b.retries ≡ some n
      → contains x b.permanent ≡ false
      → n < permanent_failure_threshold

-- Neither funded nor given up.
abbrev pub IsOpen : Books → String → Type 0
IsOpen b x = (contains x b.funded ≡ false) × (contains x b.permanent ≡ false)

module _ (b : Books) (c : IsConsistent b) (rid : String) where
  record_failure-IsConsistent : IsConsistent (record_failure b rid)
  unfolding record_failure
  record_failure-IsConsistent = record {
    given_up_unfunded =
        λ x h. ground (arith, c.given_up_unfunded x, contains-add x rid b.permanent, eq_iff x rid);
    given_up_not_failed = λ x h. ground (
      arith,
      c.given_up_not_failed x,
      contains-add x rid b.permanent,
      contains-add x rid b.failed,
      contains-discard x rid (add rid b.failed),
      eq_iff x rid,
      eq_iff rid x,
    );
    failed_unfunded = λ x h. ground (
      arith,
      c.failed_unfunded x,
      contains-add x rid b.failed,
      contains-discard x rid (add rid b.failed),
      eq_iff x rid,
      eq_iff rid x,
    );
    counts = λ x n h k. ground (
      arith,
      c.counts x n,
      c.counts rid n,
      lookup-insert x rid (next_count (lookup rid b.retries)) b.retries,
      contains-add x rid b.permanent,
      eq_iff x rid,
    );
  }

  record_success-IsConsistent :
      contains rid b.permanent ≡ false → IsConsistent (record_success b rid)
  unfolding record_success
  record_success-IsConsistent fresh = record {
    given_up_unfunded =
        λ x h. ground (arith, c.given_up_unfunded x, contains-add x rid b.funded, eq_iff x rid);
    given_up_not_failed = λ x h.
        ground (arith, c.given_up_not_failed x, contains-discard x rid b.failed, eq_iff rid x);
    failed_unfunded = λ x h. ground (
      arith,
      c.failed_unfunded x,
      contains-add x rid b.funded,
      contains-discard x rid b.failed,
      eq_iff rid x,
      eq_iff x rid,
    );
    counts = λ x n h k. ground (arith, c.counts x n, lookup-erase x rid b.retries, eq_iff x rid);
  }

record_recipient_failure-IsConsistent :
    (rids : List String) (b : Books)
    → IsConsistent b
    → IsConsistent (record_recipient_failure rids b)
unfolding record_recipient_failure
record_recipient_failure-IsConsistent [] b c = c
record_recipient_failure-IsConsistent (rid ∷ rids) b c =
    record_recipient_failure-IsConsistent rids (record_failure b rid)
      (record_failure-IsConsistent b c rid)

permanent-record_successes :
    (rids : List String) (b : Books) → (record_successes rids b).permanent ≡ b.permanent
unfolding record_successes record_success
permanent-record_successes [] b = refl
permanent-record_successes (rid ∷ rids) b = permanent-record_successes rids (record_success b rid)

record_successes-IsConsistent :
    (rids : List String) (b : Books)
    → IsConsistent b
    → All (λ x. contains x b.permanent ≡ false) rids
    → IsConsistent (record_successes rids b)
unfolding record_successes
record_successes-IsConsistent [] b c fresh = c
record_successes-IsConsistent (rid ∷ rids) b c (f, fresh) =
    record_successes-IsConsistent rids (record_success b rid)
      (record_success-IsConsistent b c rid f) (unfold record_success in fresh)

-- Settling a report of which no funded recipient was given up before keeps consistent books
-- consistent.
pub settle_batch-IsConsistent :
    (o : Outcome) (b : Books)
    → IsConsistent b
    → All (λ x. contains x b.permanent ≡ false) o.funded
    → IsConsistent (settle_batch o b)
unfolding settle_batch
settle_batch-IsConsistent o b c fresh =
    record_recipient_failure-IsConsistent o.failed (record_successes o.funded b)
      (record_successes-IsConsistent o.funded b c fresh)

contains-update :
    (x : String) (xs s : List String) → contains x (update xs s) ≡ (contains x xs || contains x s)
unfolding update
contains-update x [] s = ground (arith, contains-nil x)
contains-update x (y ∷ xs) s =
    ground (arith, contains-update x xs (add y s), contains-add x y s, contains-cons x y xs)

pub fail_batch-IsConsistent :
    (batch : List Agent) (b : Books)
    → IsConsistent b
    → ((x : String) → contains x (ids batch) ≡ true → IsOpen b x)
    → IsConsistent (fail_batch batch b)
unfolding fail_batch
fail_batch-IsConsistent batch b c fresh = record {
  given_up_unfunded = c.given_up_unfunded;
  given_up_not_failed = λ x h.
      ground (arith, c.given_up_not_failed x h, fresh x, contains-update x (ids batch) b.failed);
  failed_unfunded =
      λ x h. ground (arith, c.failed_unfunded x, fresh x, contains-update x (ids batch) b.failed);
  counts = c.counts;
}

-- A failed lookup of a recipient that has a name, is neither funded nor given up and has a
-- count, adds one to the count; from a count of 5 on the recipient is given up and not among the
-- failed, and below it is the other way round.
pub record_failure_counts :
    (b : Books) (rid : String) (n : ℕ)
    → rid ≢ ""
    → IsOpen b rid
    → lookup rid b.retries ≡ some n
    → let after = record_failure b rid in
      (lookup rid after.retries ≡ some (n + 1))
      × (contains rid after.permanent ≡ leb 5 (n + 1))
      × (contains rid after.failed ≡ not (leb 5 (n + 1)))
unfolding record_failure
record_failure_counts b rid n named open_rid h = ground (
  arith,
  open_rid.0,
  open_rid.1,
  eq_iff rid "",
  eq_iff rid rid,
  lookup-insert rid rid (n + 1) b.retries,
  contains-add rid rid b.permanent,
  contains-add rid rid b.failed,
  contains-discard rid rid (add rid b.failed),
)

module _ (x : String) where
  -- Nothing is decided about `x`.
  abbrev pub IsKept : Books → Books → Type 0
  IsKept b b' =
      (contains x b'.funded ≡ contains x b.funded)
      × (contains x b'.permanent ≡ contains x b.permanent)

  record_failure-IsKept :
      (b : Books) (rid : String) → str_eq x rid ≡ false → IsKept b (record_failure b rid)
  unfolding record_failure
  record_failure-IsKept b rid h = ground (arith, contains-add x rid b.permanent)

  record_success-IsKept :
      (b : Books) (rid : String) → str_eq x rid ≡ false → IsKept b (record_success b rid)
  unfolding record_success
  record_success-IsKept b rid h = ground (arith, contains-add x rid b.funded)

  record_recipient_failure-IsKept :
      (rids : List String) (b : Books)
      → contains x rids ≡ false
      → IsKept b (record_recipient_failure rids b)
  unfolding record_recipient_failure
  record_recipient_failure-IsKept [] b h = (refl, refl)
  record_recipient_failure-IsKept (rid ∷ rids) b h = ground (
    arith,
    contains-cons x rid rids,
    record_failure-IsKept b rid,
    record_recipient_failure-IsKept rids (record_failure b rid),
  )

  record_successes-IsKept :
      (rids : List String) (b : Books)
      → contains x rids ≡ false
      → IsKept b (record_successes rids b)
  unfolding record_successes
  record_successes-IsKept [] b h = (refl, refl)
  record_successes-IsKept (rid ∷ rids) b h = ground (
    arith,
    contains-cons x rid rids,
    record_success-IsKept b rid,
    record_successes-IsKept rids (record_success b rid),
  )

  pub settle_batch-IsKept :
      (o : Outcome) (b : Books)
      → contains x o.funded ≡ false
      → contains x o.failed ≡ false
      → IsKept b (settle_batch o b)
  unfolding settle_batch
  settle_batch-IsKept o b f g = ground (
    arith,
    record_successes-IsKept o.funded b,
    record_recipient_failure-IsKept o.failed (record_successes o.funded b),
  )

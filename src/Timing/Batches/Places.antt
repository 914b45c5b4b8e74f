-- ===== src/Timing/Batches/Places.antt =====
-- Which batch a user starts in, and when: `calculate_batch_schedule` of
-- scripts/config_generation/timeline.py.
use mathlib.Core.Option.{some-injective}
use mathlib.Core.Path.{subst}
use zano_shadow_sim.Base.{
  ℕ, zero, suc, ◌+◌, ◌*◌, ◌<◌, ◌≤◌, ◌≡◌, refl, sym, ◌∙◌, ap, ◌⊎◌, inl, inr, Option, some, none,
  List, [], ◌∷◌, ◌++◌, arith, sum, All, get_elem?, take, Option-cases,
}
use zano_shadow_sim.Float.{Float}
use zano_shadow_sim.Timing.Batches.{
  batch_entries, schedule_loop, calculate_batch_sizes, calculate_batch_schedule,
}
use zano_shadow_sim.Timing.Batches.Sizes.{Places, calculate_batch_sizes-Places}

-- The user is the `k`-th of batch `b`, which starts `b` intervals after the delay, and starts `k`
-- staggers into it.
abbrev pub InBatch : ℕ → ℕ → ℕ → List ℕ → ℕ → ℕ → Type 0
InBatch delay interval stagger sizes i start =
    (b : ℕ) × (k : ℕ) × (size : ℕ) × (get_elem? sizes b ≡ some size)
    × (k < size)
    × (i ≡ sum (take b sizes) + k)
    × (start ≡ delay + b * interval + k * stagger)

-- A place in a batch, or one among what follows it.
entries-at :
    (user time stagger i n j : ℕ) (later : List (ℕ × ℕ)) (t : ℕ × ℕ)
    → get_elem? (batch_entries user time stagger i n ++ later) j ≡ some t
    → ((j < n) × (t.1 ≡ time + (i + j) * stagger))
      ⊎ ((m : ℕ) × (j ≡ n + m) × (get_elem? later m ≡ some t))
unfolding batch_entries
entries-at user time stagger i zero j later t h = inr (j, omega arith, h)
entries-at user time stagger i (suc n) zero later t h =
    inl (omega arith, ap (λ s. s.1) (sym (some-injective _ t h)) ∙ ground arith)
entries-at user time stagger i (suc n) (suc j) later t h =
    elim (entries-at (user + 1) time stagger (i + 1) n j later t h) [
      | inl (lt, e) ↦ inl (omega (arith, lt), e ∙ ground arith)
      | inr (m, e, at) ↦ inr (m, omega (arith, e), at)
    ]

schedule_loop-at :
    (delay interval stagger batch user : ℕ) (sizes : List ℕ) (j : ℕ) (t : ℕ × ℕ)
    → get_elem? (schedule_loop delay interval stagger batch user sizes) j ≡ some t
    → InBatch (delay + batch * interval) interval stagger sizes j t.1
unfolding schedule_loop
schedule_loop-at delay interval stagger batch user [] j t h = absurd cc
schedule_loop-at delay interval stagger batch user (size ∷ sizes) j t h =
    elim (entries-at user (delay + batch * interval) stagger 0 size j _ t h) [
      | inl (lt, e) ↦ (0, j, size, refl, lt, omega arith, e ∙ ground arith)
      | inr (m, e, at) ↦
          let (b, k, s, found, lt, place, start) =
            schedule_loop-at delay interval stagger (batch + 1) (user + size) sizes m t at in
          (suc b, k, s, found, lt, omega (arith, e, place), start ∙ ground arith)
    ]

-- Where the largest batch is not 0, the sizes of the batches add up to the number of users, none is
-- above the largest, and every user that is listed is at its place in its batch.
pub calculate_batch_schedule-InBatch :
    (D : Float) (n delay interval initial : ℕ) (growth : D.F) (max_size stagger : ℕ)
    (schedule : List (ℕ × ℕ)) (i user start : ℕ)
    → 0 < max_size
    → calculate_batch_schedule D n delay interval initial growth max_size stagger ≡ some schedule
    → get_elem? schedule i ≡ some (user, start)
    → (sizes : List ℕ) × (calculate_batch_sizes D n initial growth max_size ≡ some sizes)
      × (sum sizes ≡ n)
      × All (λ b. b ≤ max_size) sizes
      × InBatch delay interval stagger sizes i start
unfolding calculate_batch_schedule
calculate_batch_schedule-InBatch D n delay interval initial growth max_size stagger schedule i user
      start h e at =
    elim (Option-cases (calculate_batch_sizes D n initial growth max_size)) [
      | inl gone ↦ absurd (none_some _ schedule (rw gone refl) e)
      | inr (sizes, found) ↦
          let (total, small) =
            subst (Places D growth n max_size) found
              (calculate_batch_sizes-Places D growth n initial max_size h) in
          let made : schedule_loop delay interval stagger 0 0 sizes ≡ schedule =
            some-injective _ schedule (sym (rw found refl) ∙ e) in
          (
            sizes,
            found,
            total,
            small,
            subst (λ d. InBatch d interval stagger sizes i start) (omega arith)
                (schedule_loop-at delay interval stagger 0 0 sizes i (user, start)
                  (ap (λ s. get_elem? s i) made ∙ at)),
          )
    ]
  where
    none_some : (o : Option (List (ℕ × ℕ))) (s : List (ℕ × ℕ)) → o ≡ none → o ≡ some s → ⊥
    none_some o s p q = cc

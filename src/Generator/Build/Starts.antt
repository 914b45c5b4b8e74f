-- ===== src/Generator/Build/Starts.antt =====
-- When the users of a generated configuration start.
use mathlib.Core.Path.{subst}
use zano_shadow_sim.Base.{
  ℕ, zero, suc, ◌+◌, ◌*◌, ◌<◌, ◌≤◌, sum, All, ◌≡◌, refl, ap, sym, ◌∙◌, Bool, true, false, not, ◌&&◌,
  Option, none, some, List, [], ◌∷◌, map, ltb, arith, inl, inr, Bool-cases, is_empty, ok, ◌>>=◌,
  get_elem?, range_from, bind-ok, ok-injective,
}
use zano_shadow_sim.Float.{Float}
use zano_shadow_sim.Timing.{user_start_time_s, default_intra_batch_stagger_s}
use zano_shadow_sim.Timing.Duration.{parse_duration}
use zano_shadow_sim.Timing.Batches.{calculate_batch_schedule, calculate_batch_sizes}
use zano_shadow_sim.Timing.Batches.Places.{InBatch, calculate_batch_schedule-InBatch}
use zano_shadow_sim.Timing.Batches.Schedule.{users, ListsAll, calculate_batch_schedule-ListsAll}
use zano_shadow_sim.Generator.{
  GenerationConfig, SpawnSchedule, is_batched, ended, last_start, spawn_in_batches, spawn_in_turn,
  spawn_with, spawn_start, compute_user_spawn_schedule,
}
use zano_shadow_sim.Generator.Build.{user_starts}

get_elem?-users :
    (us : List (ℕ × ℕ)) (k n i : ℕ)
    → users us ≡ range_from k n
    → i < n
    → (start : ℕ) × (get_elem? us i ≡ some (k + i, start))
get_elem?-users [] k zero i e h = absurd (omega arith)
get_elem?-users [] k (suc n) i e h = absurd cc
get_elem?-users ((u, s) ∷ us) k zero i e h = absurd (omega arith)
get_elem?-users ((u, s) ∷ us) k (suc n) zero e h = (s, ap (λ t. some (t, s)) (at_head (cc)))
  where
    at_head : u ≡ k → u ≡ k + 0
    at_head p = omega (arith, p)
get_elem?-users ((u, s) ∷ us) k (suc n) (suc i) e h =
    let (start, p) = get_elem?-users us (k + 1) n i (cc) (omega arith) in
    (start, p ∙ ap (λ t. some (t, start)) (omega arith))

abbrev turn : (ℕ → ℕ) → ℕ → ℕ × ℕ
turn f i = (i, f i)

users-turns : (f : ℕ → ℕ) (k n : ℕ) → users (map (turn f) (range_from k n)) ≡ range_from k n
users-turns f k zero = refl
users-turns f k (suc n) = ap (λ t. k ∷ t) (users-turns f (k + 1) n)

get_elem?-turns :
    (f : ℕ → ℕ) (k n i : ℕ)
    → i < n
    → get_elem? (map (turn f) (range_from k n)) i ≡ some (turn f (k + i))
get_elem?-turns f k zero i h = absurd (omega arith)
get_elem?-turns f k (suc n) zero h = ap (λ t. some (turn f t)) (omega arith)
get_elem?-turns f k (suc n) (suc i) h =
    get_elem?-turns f (k + 1) n i (omega arith) ∙ ap (λ t. some (turn f t)) (omega arith)

first_turns :
    (f : ℕ → ℕ) (n i : ℕ) → i < n → get_elem? (map (turn f) (range_from 0 n)) i ≡ some (turn f i)
first_turns f n i h = get_elem?-turns f 0 n i h ∙ ap (λ t. some (turn f t)) (omega arith)

first_users :
    (us : List (ℕ × ℕ)) (n i : ℕ)
    → users us ≡ range_from 0 n
    → i < n
    → (start : ℕ) × (get_elem? us i ≡ some (i, start))
first_users us n i e h =
    let (start, p) = get_elem?-users us 0 n i e h in
    (start, p ∙ ap (λ t. some (t, start)) (omega arith))

-- The start of the `i`-th user: its place in the batches, or its turn after three hours.
abbrev pub StartsAt : Float → GenerationConfig → ℕ → ℕ → Bool → ℕ → ℕ → Type 0
StartsAt D cfg user_spawn_start_s batch_interval_s true i start =
    (sizes : List ℕ) × (calculate_batch_sizes D cfg.total_agents
        cfg.batched_bootstrap.initial_batch_size (D.of_ℕ 2) cfg.batched_bootstrap.max_batch_size
      ≡ some sizes)
    × (sum sizes ≡ cfg.total_agents)
    × All (λ b. b ≤ cfg.batched_bootstrap.max_batch_size) sizes
    × InBatch user_spawn_start_s batch_interval_s default_intra_batch_stagger_s sizes i start
StartsAt D cfg user_spawn_start_s batch_interval_s false i start =
    start ≡ user_start_time_s + i * cfg.stagger_interval_s

-- Every user is listed once and in order, with its start.
abbrev pub IsListed : Float → GenerationConfig → SpawnSchedule → Type 0
IsListed D cfg spawn =
    (users (user_starts cfg spawn) ≡ range_from 0 cfg.total_agents)
    × ((i : ℕ)
        → i < cfg.total_agents
        → (start : ℕ) × (get_elem? (user_starts cfg spawn) i ≡ some (i, start))
          × StartsAt D cfg spawn.user_spawn_start_s spawn.batch_interval_s spawn.use_batched i
              start)

ended-ok : {A : Type 0} (o : Option A) (a : A) → ended o ≡ ok a → o ≡ some a
unfolding ended
ended-ok none a h = absurd cc
ended-ok (some b) a h = ap some (ok-injective b a h)

abbrev batched : ℕ → ℕ → List ℕ → List (ℕ × ℕ) → SpawnSchedule
batched interval start sizes schedule = record {
  use_batched = true;
  batch_interval_s = interval;
  user_spawn_start_s = start;
  last_user_spawn_s = last_start schedule;
  batch_sizes = sizes;
  batch_schedule = schedule;
}

not_empty :
    (us : List (ℕ × ℕ)) (n : ℕ) → 0 < n → users us ≡ range_from 0 n → not (is_empty us) ≡ true
not_empty [] zero h e = absurd (omega arith)
not_empty [] (suc n) h e = absurd cc
not_empty (u ∷ us) n h e = refl

module _ (D : Float) (cfg : GenerationConfig)
    (positive : 0 < cfg.batched_bootstrap.max_batch_size) where
  users-scheduled :
      (interval start : ℕ) (schedule : List (ℕ × ℕ))
      → calculate_batch_schedule D cfg.total_agents start interval
          cfg.batched_bootstrap.initial_batch_size
          (D.of_ℕ 2)
          cfg.batched_bootstrap.max_batch_size
          default_intra_batch_stagger_s
        ≡ some schedule
      → users schedule ≡ range_from 0 cfg.total_agents
  users-scheduled interval start schedule e = subst (ListsAll cfg.total_agents) e (
      calculate_batch_schedule-ListsAll D cfg.total_agents start interval
        cfg.batched_bootstrap.initial_batch_size (D.of_ℕ 2) cfg.batched_bootstrap.max_batch_size
        default_intra_batch_stagger_s positive)

  batched-IsListed :
      (interval start : ℕ) (sizes : List ℕ) (schedule : List (ℕ × ℕ))
      → 0 < cfg.total_agents
      → calculate_batch_schedule D cfg.total_agents start interval
          cfg.batched_bootstrap.initial_batch_size
          (D.of_ℕ 2)
          cfg.batched_bootstrap.max_batch_size
          default_intra_batch_stagger_s
        ≡ some schedule
      → IsListed D cfg (batched interval start sizes schedule)
  unfolding user_starts
  batched-IsListed interval start sizes schedule some_user e =
      let listed = users-scheduled interval start schedule e in
      let filled = not_empty schedule cfg.total_agents some_user listed in
      (
        rw filled listed,
        λ i h.
            let (t, at) = first_users schedule cfg.total_agents i listed h in
            (
              t,
              rw filled at,
              calculate_batch_schedule-InBatch D cfg.total_agents start interval
                  cfg.batched_bootstrap.initial_batch_size (D.of_ℕ 2)
                  cfg.batched_bootstrap.max_batch_size default_intra_batch_stagger_s schedule i i t
                  positive e at,
            ),
      )

  -- Users that start in batches.
  spawn_in_batches-IsListed :
      (interval start : ℕ) (spawn : SpawnSchedule)
      → 0 < cfg.total_agents
      → spawn_in_batches D cfg.total_agents interval start cfg ≡ ok spawn
      → IsListed D cfg spawn
  unfolding spawn_in_batches
  spawn_in_batches-IsListed interval start spawn some_user h =
      let initial = cfg.batched_bootstrap.initial_batch_size in
      let max_size = cfg.batched_bootstrap.max_batch_size in
      let scheduled =
        calculate_batch_schedule D cfg.total_agents start interval initial (D.of_ℕ 2) max_size
          default_intra_batch_stagger_s in
      let made =
        λ (sizes : List ℕ) (schedule : List (ℕ × ℕ)). batched interval start sizes schedule in
      let (sizes, _, h₁) =
        bind-ok (ended (calculate_batch_sizes D cfg.total_agents initial (D.of_ℕ 2) max_size))
          (λ sizes. ended scheduled >>= (λ schedule. ok (made sizes schedule))) spawn h in
      let (schedule, found, h₂) =
        bind-ok (ended scheduled) (λ schedule. ok (made sizes schedule)) spawn h₁ in
      subst (IsListed D cfg) (ok-injective (made sizes schedule) spawn h₂) (
        batched-IsListed interval start sizes schedule some_user
          (ended-ok scheduled schedule found))

  -- Users that start in turn.
  in_turn-IsListed :
      (flag : Bool) (interval start : ℕ)
      → flag && ltb 0 cfg.total_agents ≡ false
      → IsListed D cfg (spawn_in_turn D flag cfg.total_agents interval start cfg)
  unfolding user_starts spawn_in_turn
  in_turn-IsListed true interval start h =
      (users-turns _ 0 cfg.total_agents, λ i lt. absurd (ground arith))
  in_turn-IsListed false interval start h =
      (users-turns _ 0 cfg.total_agents, λ i lt. (_, first_turns _ cfg.total_agents i lt, refl))

  pub spawn_with-IsListed :
      (interval start : ℕ) (spawn : SpawnSchedule)
      → spawn_with D cfg.total_agents cfg interval start ≡ ok spawn
      → IsListed D cfg spawn
  unfolding spawn_with
  spawn_with-IsListed interval start spawn h =
      let flag = is_batched cfg.total_agents cfg in
      elim (Bool-cases (flag && ltb 0 cfg.total_agents)) [
        | inl b ↦
            spawn_in_batches-IsListed interval start spawn (ground arith) (sym (rw b refl) ∙ h)
        | inr b ↦
            subst (IsListed D cfg)
              (ok-injective (spawn_in_turn D flag cfg.total_agents interval start cfg) spawn
                (sym (rw b refl) ∙ h))
              (in_turn-IsListed flag interval start b)
      ]

  pub compute_user_spawn_schedule-IsListed :
      (spawn : SpawnSchedule)
      → compute_user_spawn_schedule D cfg.total_agents cfg ≡ ok spawn
      → IsListed D cfg spawn
  unfolding compute_user_spawn_schedule
  compute_user_spawn_schedule-IsListed spawn h =
      let (interval, _, h₁) =
        bind-ok (parse_duration D cfg.batched_bootstrap.batch_interval)
          (λ interval.
            spawn_start D cfg.total_agents cfg >>= spawn_with D cfg.total_agents cfg interval)
          spawn h in
      let (start, _, h₂) =
        bind-ok (spawn_start D cfg.total_agents cfg) (spawn_with D cfg.total_agents cfg interval)
          spawn h₁ in
      spawn_with-IsListed interval start spawn h₂

-- ===== src/Generator/Build/Users.antt =====
-- The users of a generated configuration.
use mathlib.Core.Option
use mathlib.Core.Path.{subst}
use zano_shadow_sim.Base.{
  Bool-cases, inl, inr, ℕ, zero, suc, ◌+◌, ◌<◌, ◌≤◌, ◌≢◌, ◌≡◌, refl, ap, sym, ◌∙◌, Option, none,
  some, List, [], ◌∷◌, String, str_eq, eq_iff, arith, ok, get_elem?, range_from, bind-ok,
  ok-injective,
}
use zano_shadow_sim.Base.Dict.{lookup, insert, lookup-insert}
use zano_shadow_sim.Shared.Json.{Json, Members, get}
use zano_shadow_sim.Timing.Batches.Schedule.{users}
use zano_shadow_sim.Generator.{GenerationConfig, fixed_miners, num_monero_fallback_seeds}
use zano_shadow_sim.Generator.Agents.{numbered, generate_user_agent}
use zano_shadow_sim.Generator.Agents.Laws.{
  user-ne-relay, user-ne-seed, user-ne-distributor, user-ne-monitor, users-ne,
}
use zano_shadow_sim.Generator.Build.Plans.{
  activity_of, make_plan-IsPlanned, IsPlanned-spawn, IsPlanned-plain, IsPlanned-activity,
}
use zano_shadow_sim.Generator.Build.Starts.{StartsAt, compute_user_spawn_schedule-IsListed}
use zano_shadow_sim.Generator.Sections.{TimingInfo}
use zano_shadow_sim.Calibrate.{Calibration, Calibrator}
use zano_shadow_sim.Float.{Float}
use zano_shadow_sim.Generator.Entries.{
  Agents, emit, add_user, add_users, add_relays, add_seeds, add_miners, seed_binary,
}
use zano_shadow_sim.Generator.Build.{
  Plan, build_agents, user_starts, with_services, with_miners, with_users, with_relays, members_of,
  make_plan, build, assemble, timing_info, generate_config,
}

-- The entry of a user without an upgrade.
abbrev pub user_entry : GenerationConfig → Plan → ℕ → ℕ → Members
user_entry cfg p i start =
    generate_user_agent start p.tx_interval
      (activity_of p.activity_start_time_s p.user_activity_times i) cfg.daemon_binary
      cfg.tx_send_probability

lookup-add_relays :
    (cfg : GenerationConfig) (i : ℕ) (js : List ℕ) (agents agents' : Agents)
    → add_relays none cfg js agents ≡ ok agents'
    → lookup (numbered "user" i) agents' ≡ lookup (numbered "user" i) agents
unfolding add_relays emit
lookup-add_relays cfg i [] agents agents' h =
    ap (lookup (numbered "user" i)) (sym (ok-injective agents agents' h))
lookup-add_relays cfg i (j ∷ js) agents agents' h =
    lookup-add_relays cfg i js _ agents' h ∙ rw (lookup-insert, user-ne-relay i j) refl

lookup-add_seeds :
    (binary : String) (i : ℕ) (js : List ℕ) (agents : Agents)
    → lookup (numbered "user" i) (add_seeds binary js agents) ≡ lookup (numbered "user" i) agents
unfolding add_seeds
lookup-add_seeds binary i [] agents = refl
lookup-add_seeds binary i (j ∷ js) agents =
    lookup-add_seeds binary i js _ ∙ rw (lookup-insert, user-ne-seed i j) refl

-- Only the users from the `k`-th on are entered.
lookup-add_users_before :
    (cfg : GenerationConfig) (tx base : ℕ) (times : List ℕ) (i k n : ℕ) (us : List (ℕ × ℕ))
    (agents agents' : Agents)
    → users us ≡ range_from k n
    → i < k
    → add_users none cfg tx base times us agents ≡ ok agents'
    → lookup (numbered "user" i) agents' ≡ lookup (numbered "user" i) agents
unfolding add_users add_user emit
lookup-add_users_before cfg tx base times i k n [] agents agents' e lt h =
    ap (lookup (numbered "user" i)) (sym (ok-injective agents agents' h))
lookup-add_users_before cfg tx base times i k zero ((u, s) ∷ us) agents agents' e lt h = absurd cc
lookup-add_users_before cfg tx base times i k (suc n) ((u, s) ∷ us) agents agents' e lt h =
    lookup-add_users_before cfg tx base times i (k + 1) n us _ agents' (cc) (omega arith) h
    ∙ rw (lookup-insert, users-ne i u (head_ne (cc))) refl
  where
    head_ne : u ≡ k → i ≢ u
    head_ne p = omega (arith, p)

lookup-add_users :
    (cfg : GenerationConfig) (tx base : ℕ) (times : List ℕ) (i j k n start : ℕ) (us : List (ℕ × ℕ))
    (agents agents' : Agents)
    → users us ≡ range_from k n
    → get_elem? us j ≡ some (i, start)
    → add_users none cfg tx base times us agents ≡ ok agents'
    → lookup (numbered "user" i) agents'
      ≡ some (
          generate_user_agent start tx
            (activity_of base times i)
            cfg.daemon_binary
            cfg.tx_send_probability)
unfolding add_users add_user emit activity_of
lookup-add_users cfg tx base times i j k n start [] agents agents' e at h = absurd cc
lookup-add_users cfg tx base times i j k zero start ((u, s) ∷ us) agents agents' e at h = absurd cc
lookup-add_users cfg tx base times i zero k (suc n) start ((u, s) ∷ us) agents agents' e at h =
    lookup-add_users_before cfg tx base times i (k + 1) n us _ agents' (cc) (here (cc) (cc)) h
    ∙ entered (cc) (cc)
  where
    here : u ≡ k → u ≡ i → i < k + 1
    here p q = omega (arith, p, q)

    entry : ℕ → ℕ → Members
    entry v start' =
        generate_user_agent start' tx (activity_of base times v) cfg.daemon_binary
          cfg.tx_send_probability

    entered :
        u ≡ i
        → s ≡ start
        → lookup (numbered "user" i) (insert (numbered "user" u) (entry u s) agents)
          ≡ some (entry i start)
    entered p q =
        lookup-insert _ _ _ agents
        ∙ rw
            (
              (eq_iff (numbered "user" i) (numbered "user" u)).1 (ap (numbered "user") (sym p)),
              p,
              q,
            )
            refl
lookup-add_users cfg tx base times i (suc j) k (suc n) start ((u, s) ∷ us) agents agents' e at h =
    lookup-add_users cfg tx base times i j (k + 1) n start us _ agents' (cc) at h

get-members_of :
    (k : String) (agents : Agents)
    → get k (members_of agents) ≡ Option.map Json.object (lookup k agents)
unfolding members_of lookup get
get-members_of k [] = refl
get-members_of k ((j, agent) ∷ agents) = ground (arith, get-members_of k agents)

lookup-with_services :
    (cfg : GenerationConfig) (p : Plan) (i : ℕ) (relays : Agents)
    → lookup (numbered "user" i) (with_services cfg p relays) ≡ lookup (numbered "user" i) relays
unfolding with_services
lookup-with_services cfg p i relays = elim (Bool-cases (str_eq cfg.fallback_seeds_mode "custom")) [
  | inl h ↦
      rw (h, lookup-insert, user-ne-monitor i, lookup-insert, user-ne-distributor i)
        (lookup-add_seeds (seed_binary cfg) i (range_from 0 num_monero_fallback_seeds) relays)
  | inr h ↦ rw (h, lookup-insert, user-ne-monitor i, lookup-insert, user-ne-distributor i) refl
]

-- The agents of a plan without an upgrade have every user's entry.
lookup-build_agents :
    (cfg : GenerationConfig) (p : Plan) (agents : Agents) (i start : ℕ)
    → p.upgrade ≡ none
    → users (user_starts cfg p.spawn) ≡ range_from 0 cfg.total_agents
    → get_elem? (user_starts cfg p.spawn) i ≡ some (i, start)
    → build_agents cfg p ≡ ok agents
    → lookup (numbered "user" i) agents ≡ some (user_entry cfg p i start)
unfolding build_agents with_miners with_users with_relays
lookup-build_agents cfg p agents i start plain listed at h =
    let (miners, _, h₁) =
      bind-ok (add_miners p.upgrade cfg.daemon_binary 0 fixed_miners []) (with_miners cfg p) agents
        h in
    let (us, added, h₂) = bind-ok (with_users cfg p miners) (with_relays cfg p) agents h₁ in
    let (relays, related, h₃) =
      bind-ok (add_relays p.upgrade cfg (range_from 0 cfg.relay_nodes.count) us)
        (λ relays. ok (with_services cfg p relays)) agents h₂ in
    ap (lookup (numbered "user" i)) (sym (ok-injective (with_services cfg p relays) agents h₃))
    ∙ (lookup-with_services cfg p i relays
        ∙ (lookup-add_relays cfg i (range_from 0 cfg.relay_nodes.count) us relays (
              subst (λ u. add_relays u cfg (range_from 0 cfg.relay_nodes.count) us ≡ ok relays)
                plain related)
            ∙ lookup-add_users cfg p.tx_interval p.activity_start_time_s p.user_activity_times i i 0
                cfg.total_agents start (user_starts cfg p.spawn) miners us listed at
                (subst
                  (λ u.
                    add_users u cfg p.tx_interval p.activity_start_time_s p.user_activity_times
                      (user_starts cfg p.spawn) miners
                    ≡ ok us)
                  plain added)))

agents_section :
    (dir : String) (cfg : GenerationConfig) (p : Plan) (agents : Agents)
    → get "agents" (assemble dir cfg p agents) ≡ some (Json.object (members_of agents))
unfolding assemble get
agents_section dir cfg p agents = refl

-- A user's entry among the agents, with its start and its activity.
abbrev pub HasUser : Float → GenerationConfig → TimingInfo → Members → ℕ → Type 0
HasUser D cfg info agents i =
    (start : ℕ) × (activity : ℕ) × StartsAt D cfg info.user_spawn_start_s info.batch_interval_s
      info.use_batched i start
    × (info.activity_start_time_s ≤ activity)
    × (get (numbered "user" i) agents
        ≡ some (
            Json.object (
              generate_user_agent start info.tx_interval activity cfg.daemon_binary
                cfg.tx_send_probability)))

-- Where the largest batch is not 0 and there is no upgrade, every user of a generated
-- configuration has its entry among the agents under its own id; with batches, whose sizes add
-- up to the number of users and are at most the largest, the k-th user of batch b starts b
-- intervals and k staggers after the timing's start; without, the i-th user starts i intervals
-- after three hours, whatever start the timing has; its activity starts no earlier than the
-- timing says.
pub generate_config-HasUsers :
    (D : Float) (shuffle : ℕ → List String → List String) (outcome : Option Calibration) (cores : ℕ)
    (dir : String) (cfg : GenerationConfig) (c : Calibrator) (config : Members) (info : TimingInfo)
    → cfg.upgrade ≡ none
    → 0 < cfg.batched_bootstrap.max_batch_size
    → generate_config D shuffle outcome cores dir cfg c ≡ ok (config, info)
    → (agents : Members) × (get "agents" config ≡ some (Json.object agents))
      × ((i : ℕ) → i < cfg.total_agents → HasUser D cfg info agents i)
unfolding generate_config build
generate_config-HasUsers D shuffle outcome cores dir cfg c config info plain positive h =
    let (p, plan, h₁) =
      bind-ok (make_plan D shuffle outcome cores cfg c) (build dir cfg) (config, info) h in
    let (agents, built, h₂) =
      bind-ok (build_agents cfg p) (λ agents. ok (assemble dir cfg p agents, timing_info cfg p))
        (config, info) h₁ in
    let same = ok-injective (assemble dir cfg p agents, timing_info cfg p) (config, info) h₂ in
    let planned = make_plan-IsPlanned D shuffle outcome cores cfg c p plan in
    let listed =
      compute_user_spawn_schedule-IsListed D cfg positive p.spawn
        (IsPlanned-spawn D shuffle outcome cores cfg c p planned) in
    let unphased = IsPlanned-plain D shuffle outcome cores cfg c p planned plain in
    (
      members_of agents,
      ap (λ t. get "agents" t.0) (sym same) ∙ agents_section dir cfg p agents,
      λ i lt.
          let (start, at, starts) = listed.1 i lt in
          subst (λ (t : Members × TimingInfo). HasUser D cfg t.1 (members_of agents) i) same
            (
              start,
              activity_of p.activity_start_time_s p.user_activity_times i,
              unfold timing_info in starts,
              unfold timing_info in IsPlanned-activity D shuffle outcome cores cfg c p i planned,
              get-members_of (numbered "user" i) agents
                  ∙ ap (Option.map Json.object)
                      (lookup-build_agents cfg p agents i start unphased listed.0 at built),
            ),
    )

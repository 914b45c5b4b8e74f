-- ===== src/Generator/Build/Returns.antt =====
-- A configuration is generated for every readable input.
use zano_shadow_sim.Base.{
  ℕ, zero, suc, ◌+◌, ◌<◌, ◌≡◌, refl, true, Option, none, some, List, [], ◌∷◌, String, arith, inl,
  inr, Option-cases, is_some, range_from, length, Result, ok, err, ◌>>=◌,
}
use zano_shadow_sim.Base.Dict.{lookup}
use zano_shadow_sim.Float.{Float}
use zano_shadow_sim.Timing.Duration.{parse_duration}
use zano_shadow_sim.Timing.Batches.Sizes.{Places}
use zano_shadow_sim.Timing.Batches.Schedule.{users, ListsAll}
use zano_shadow_sim.Shared.Json.{Members}
use zano_shadow_sim.Generator.{GenerationConfig, given_or, ended, fixed_miners}
use zano_shadow_sim.Generator.Agents.{numbered}
use zano_shadow_sim.Generator.Entries.{Agents, emit, add_miners, add_user, add_users, add_relays}
use zano_shadow_sim.Generator.Build.{
  Plan, with_users, with_relays, with_miners, build_agents, user_starts,
}
use zano_shadow_sim.Generator.Upgrade.{Upgrade, phase_times}

abbrev pub IsOk {ℓ} : {A : Type ℓ} → Result A → Type ℓ
IsOk {A} r = (a : A) × (r ≡ ok a)

-- A chain of results that are there.
pub bind-IsOk :
    {A B : Type 0} (r : Result A) (f : A → Result B)
    → IsOk r
    → ((a : A) → r ≡ ok a → IsOk (f a))
    → IsOk (r >>= f)
bind-IsOk (ok a) f h g = g a refl
bind-IsOk (err e) f (a, h) g = absurd cc

-- A duration that is given can be read.
abbrev pub IsReadable? : Float → Option (List ℕ) → Type 0
IsReadable? D none = Unit
IsReadable? D (some text) = IsOk (parse_duration D text)

pub given_or-IsOk :
    (D : Float) (text : Option (List ℕ)) (value : ℕ)
    → IsReadable? D text
    → IsOk (given_or D text value)
unfolding given_or
given_or-IsOk D none value h = (value, refl)
given_or-IsOk D (some text) value h = h

pub ended-sizes :
    (D : Float) (growth : D.F) (n max_size : ℕ) (o : Option (List ℕ))
    → Places D growth n max_size o
    → IsOk (ended o)
unfolding ended
ended-sizes D growth n max_size none h = absurd h
ended-sizes D growth n max_size (some sizes) h = (sizes, refl)

pub ended-schedule : (n : ℕ) (o : Option (List (ℕ × ℕ))) → ListsAll n o → IsOk (ended o)
unfolding ended
ended-schedule n none h = absurd h
ended-schedule n (some schedule) h = (schedule, refl)

-- An agent whose phases, where there are any, are in the schedule.
abbrev pub HasTimes : Option Upgrade → String → Type 0
HasTimes none agent_id = Unit
HasTimes (some u) agent_id = is_some (lookup agent_id u.phases.schedule) ≡ true

phase_times-IsOk :
    (agent_id : String) (u : Upgrade)
    → HasTimes (some u) agent_id
    → IsOk (phase_times agent_id u.phases)
unfolding phase_times
phase_times-IsOk agent_id u h = elim (Option-cases (lookup agent_id u.phases.schedule)) [
  | inl e ↦ absurd (missing (lookup agent_id u.phases.schedule) e h)
  | inr (times, e) ↦ (times, rw (e, phase_times) refl)
]
  where
    missing : (o : Option (ℕ × ℕ)) → o ≡ none → is_some o ≡ true → ⊥
    missing none e t = cc
    missing (some x) e t = cc

emit-IsOk :
    (upgrade : Option Upgrade) (agent_id : String) (plain : Members)
    (phased : String → String → ℕ → ℕ → Members) (agents : Agents)
    → HasTimes upgrade agent_id
    → IsOk (emit upgrade agent_id plain phased agents)
unfolding emit
emit-IsOk none agent_id plain phased agents h = (_, refl)
emit-IsOk (some u) agent_id plain phased agents h =
    bind-IsOk (phase_times agent_id u.phases) _ (phase_times-IsOk agent_id u h)
      (λ times _. (_, refl))

module _ (upgrade : Option Upgrade) (cfg : GenerationConfig) where
  add_miners-IsOk :
      (binary : String) (k : ℕ) (miners : List (ℕ × ℕ)) (agents : Agents)
      → ((i : ℕ) → i < k + length miners → HasTimes upgrade (numbered "miner" i))
      → IsOk (add_miners upgrade binary k miners agents)
  unfolding add_miners
  add_miners-IsOk binary k [] agents h = (agents, refl)
  add_miners-IsOk binary k ((rate, start) ∷ miners) agents h =
      bind-IsOk _ (add_miners upgrade binary (k + 1) miners)
        (emit-IsOk upgrade (numbered "miner" k) _ _ agents (h k (omega arith)))
        (λ more _. add_miners-IsOk binary (k + 1) miners more (λ i lt. h i (omega arith)))

  add_users-IsOk :
      (tx base : ℕ) (times : List ℕ) (us : List (ℕ × ℕ)) (k n : ℕ) (agents : Agents)
      → users us ≡ range_from k n
      → ((i : ℕ) → i < k + n → HasTimes upgrade (numbered "user" i))
      → IsOk (add_users upgrade cfg tx base times us agents)
  unfolding add_users add_user
  add_users-IsOk tx base times [] k n agents e h = (agents, refl)
  add_users-IsOk tx base times ((u, s) ∷ us) k zero agents e h = absurd cc
  add_users-IsOk tx base times ((u, s) ∷ us) k (suc n) agents e h =
      bind-IsOk _ (add_users upgrade cfg tx base times us)
        (emit-IsOk upgrade (numbered "user" u) _ _ agents (h u (head_lt (cc))))
        (λ more _. add_users-IsOk tx base times us (k + 1) n more (cc) (λ i lt. h i (omega arith)))
    where
      head_lt : u ≡ k → u < k + suc n
      head_lt p = omega (arith, p)

  add_relays-IsOk :
      (k n : ℕ) (agents : Agents)
      → ((i : ℕ) → i < k + n → HasTimes upgrade (numbered "relay" i))
      → IsOk (add_relays upgrade cfg (range_from k n) agents)
  unfolding add_relays
  add_relays-IsOk k zero agents h = (agents, refl)
  add_relays-IsOk k (suc n) agents h =
      bind-IsOk _ (add_relays upgrade cfg (range_from (k + 1) n))
        (emit-IsOk upgrade (numbered "relay" k) _ _ agents (h k (omega arith)))
        (λ more _. add_relays-IsOk (k + 1) n more (λ i lt. h i (omega arith)))

  pub build_agents-IsOk :
      (p : Plan)
      → p.upgrade ≡ upgrade
      → users (user_starts cfg p.spawn) ≡ range_from 0 cfg.total_agents
      → ((i : ℕ) → i < length fixed_miners → HasTimes upgrade (numbered "miner" i))
      → ((i : ℕ) → i < cfg.total_agents → HasTimes upgrade (numbered "user" i))
      → ((i : ℕ) → i < cfg.relay_nodes.count → HasTimes upgrade (numbered "relay" i))
      → IsOk (build_agents cfg p)
  unfolding build_agents with_miners with_users with_relays
  build_agents-IsOk p e listed miners us relays = rw e (
      bind-IsOk (add_miners upgrade cfg.daemon_binary 0 fixed_miners []) _
        (add_miners-IsOk cfg.daemon_binary 0 fixed_miners [] (λ i lt. miners i (omega arith)))
        (λ agents _.
          bind-IsOk
            (add_users upgrade cfg p.tx_interval p.activity_start_time_s p.user_activity_times
              (user_starts cfg p.spawn) agents)
            _
            (add_users-IsOk p.tx_interval p.activity_start_time_s p.user_activity_times
              (user_starts cfg p.spawn) 0 cfg.total_agents agents listed
              (λ i lt. us i (omega arith)))
            (λ agents' _.
              bind-IsOk (add_relays upgrade cfg (range_from 0 cfg.relay_nodes.count) agents') _
                (add_relays-IsOk 0 cfg.relay_nodes.count agents' (λ i lt. relays i (omega arith)))
                (λ agents'' _. (_, refl)))))

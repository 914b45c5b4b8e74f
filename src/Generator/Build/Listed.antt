-- ===== src/Generator/Build/Listed.antt =====
-- Every agent of a generated configuration has its times in the schedule of the upgrade.
use zano_shadow_sim.Base.{
  ℕ, zero, suc, ◌+◌, ◌*◌, ◌<◌, ◌≡◌, refl, ap, ◌∙◌, true, false, ◌||◌, List, [], ◌∷◌, map, String,
  eq_iff, arith, is_some, range_from, contains, contains-append,
}
use zano_shadow_sim.Base.Dict.{Dict, lookup, lookup-insert, insert}
use zano_shadow_sim.Timing.{default_daemon_restart_gap_s}
use zano_shadow_sim.Timing.Batches.{
  select, ordered_agents, schedule_from, calculate_upgrade_schedule, UpgradeOrder, sequential,
  random, miners_first,
}
use zano_shadow_sim.Generator.Agents.{numbered}
use zano_shadow_sim.Generator.Upgrade.{numbered_ids}

-- A shuffle of a seed leaves everyone in the list.
abbrev pub KeepsMembers : (ℕ → List String → List String) → Type 0
KeepsMembers shuffle =
    (seed : ℕ) (a : String) (agents : List String)
    → contains a agents ≡ true
    → contains a (shuffle seed agents) ≡ true

lookup-schedule_from :
    (start stagger i : ℕ) (agents : List String) (d : Dict (ℕ × ℕ)) (a : String)
    → (is_some (lookup a d) || contains a agents) ≡ true
    → is_some (lookup a (schedule_from start stagger i agents d)) ≡ true
unfolding schedule_from contains
lookup-schedule_from start stagger i [] d a h = ground arith
lookup-schedule_from start stagger i (b ∷ agents) d a h =
    lookup-schedule_from start stagger (i + 1) agents
      (insert b (stop, stop + default_daemon_restart_gap_s) d) a
      (ground (arith, lookup-insert a b (stop, stop + default_daemon_restart_gap_s) d))
  where
    stop : ℕ
    stop = start + i * stagger

contains-select :
    (miner_ids : List String) (a : String) (agents : List String)
    → (contains a (select true miner_ids agents) || contains a (select false miner_ids agents))
      ≡ contains a agents
unfolding select contains
contains-select miner_ids a [] = refl
contains-select miner_ids a (b ∷ agents) = ground (arith, contains-select miner_ids a agents)

contains-ordered_agents :
    (shuffle : ℕ → List String → List String) (order : UpgradeOrder) (seed : ℕ)
    (agents miner_ids : List String) (a : String)
    → KeepsMembers shuffle
    → contains a agents ≡ true
    → contains a (ordered_agents shuffle order seed agents miner_ids) ≡ true
unfolding ordered_agents
contains-ordered_agents shuffle random seed agents miner_ids a keeps h = keeps seed a agents h
contains-ordered_agents shuffle miners_first seed agents miner_ids a keeps h =
    contains-append a (select true miner_ids agents) (select false miner_ids agents)
    ∙ (contains-select miner_ids a agents ∙ h)
contains-ordered_agents shuffle sequential seed agents miner_ids a keeps h = h

-- Whoever is to be upgraded has its times.
pub lookup-scheduled :
    (shuffle : ℕ → List String → List String) (agents : List String) (start stagger : ℕ)
    (order : UpgradeOrder) (miner_ids : List String) (seed : ℕ) (a : String)
    → KeepsMembers shuffle
    → contains a agents ≡ true
    → is_some
        (lookup a (calculate_upgrade_schedule shuffle agents start stagger order miner_ids seed))
      ≡ true
unfolding calculate_upgrade_schedule lookup
lookup-scheduled shuffle agents start stagger order miner_ids seed a keeps h =
    lookup-schedule_from start stagger 0 (ordered_agents shuffle order seed agents miner_ids) [] a
      (contains-ordered_agents shuffle order seed agents miner_ids a keeps h)

contains-numbered :
    (name : String) (k n i : ℕ)
    → i < n
    → contains (numbered name (k + i)) (map (numbered name) (range_from k n)) ≡ true
unfolding contains
contains-numbered name k zero i h = absurd (omega arith)
contains-numbered name k (suc n) zero h =
    rw ((eq_iff (numbered name (k + 0)) (numbered name k)).1 (ap (numbered name) (omega arith)))
      refl
contains-numbered name k (suc n) (suc i) h = ground (
  arith,
  contains-numbered name (k + 1) n i (omega arith),
  ap (λ t. contains (numbered name t) (map (numbered name) (range_from (k + 1) n))) (shift k i),
)
  where
    shift : (k i : ℕ) → k + 1 + i ≡ k + suc i
    shift k i = omega arith

pub contains-numbered_ids :
    (name : String) (n i : ℕ) → i < n → contains (numbered name i) (numbered_ids name n) ≡ true
unfolding numbered_ids
contains-numbered_ids name n i h =
    ap (λ t. contains (numbered name t) (map (numbered name) (range_from 0 n))) (omega arith)
    ∙ contains-numbered name 0 n i h

-- ===== src/Scenario/Expand/Laws.antt =====
-- Who is among the expanded agents, and when their upgrades are.
use mathlib.Core.Path.{subst}
use zano_shadow_sim.Base.{
  ℕ, ◌+◌, zero, suc, ◌≡◌, ◌≤◌, ◌<◌, ◌-◌, ◌++◌, ◌==◌, inl, inr, Bool-cases, max, length, decimal,
  all_digits, true, Option, List, [], ◌∷◌, map, String, eq_iff, arith, is_some, range_from, value,
  text_of, ok, ◌>>=◌, bind-ok, ok-injective, All,
}
use zano_shadow_sim.Base.Dict.{Dict, lookup, insert, lookup-insert}
use zano_shadow_sim.Float.{Float}
use zano_shadow_sim.Calibrate.{Calibration, Calibrator}
use zano_shadow_sim.Shared.Json.{Json, Members}
use zano_shadow_sim.Scenario.{IdRange, id_format, agent_ids}
use zano_shadow_sim.Scenario.Laws.Ids.{value-id_format, all_digits-id_format}
use zano_shadow_sim.Scenario.Fields.{
  AgentGroup, Offsets, with_defaults, base_fields, stagger_fields, runs_script, expand_fields,
}
use zano_shadow_sim.Scenario.Expand.{
  Expanded, agent_config, track_start, add_agents, expand_group, expand_groups, expand_agent_groups,
}

abbrev pub IsAgent : Dict Members → List ℕ → Type 0
IsAgent agents agent_id = is_some (lookup (text_of agent_id) agents) ≡ true

lookup-kept :
    (a b : String) (m : Members) (agents : Dict Members)
    → is_some (lookup a agents) ≡ true
    → is_some (lookup a (insert b m agents)) ≡ true
lookup-kept a b m agents h = ground (arith, lookup-insert a b m agents)

lookup-entered :
    (a : String) (m : Members) (agents : Dict Members)
    → is_some (lookup a (insert a m agents)) ≡ true
lookup-entered a m agents = ground (arith, lookup-insert a a m agents, eq_iff a a)

-- An id of the range: its prefix, and a number with the range's width.
abbrev pub HasMember : Dict Members → IdRange → ℕ → Type 0
HasMember agents r i =
    (digits : List ℕ) × (all_digits digits ≡ true)
    × (value digits ≡ i)
    × (length digits ≡ max r.width (length (decimal i)))
    × IsAgent agents (r.id_prefix ++ digits)

All-range :
    (P : List ℕ → Type 0) (f : ℕ → List ℕ) (k n i : ℕ)
    → All P (map f (range_from k n))
    → k ≤ i
    → i < k + n
    → P (f i)
All-range P f k zero i h low high = absurd (omega arith)
All-range P f k (suc n) i (h, hs) low high = elim (Bool-cases (k == i)) [
  | inl same ↦ subst (λ j. P (f j)) (ground arith) h
  | inr other ↦ All-range P f (k + 1) n i hs (ground arith) (omega arith)
]

agent_ids-HasMember :
    (agents : Dict Members) (r : IdRange) (i : ℕ)
    → All (IsAgent agents) (agent_ids r)
    → r.start_index ≤ i
    → i ≤ r.end_index
    → HasMember agents r i
unfolding agent_ids
agent_ids-HasMember agents r i h low high =
    let (number, width) = value-id_format r.width i in
    (
      id_format r.width i,
      all_digits-id_format r.width i,
      number,
      width,
      All-range (IsAgent agents) (λ j. r.id_prefix ++ id_format r.width j) r.start_index
          (r.end_index + 1 - r.start_index) i h low (omega arith),
    )

ranges-HasMember :
    (agents : Dict Members) (groups : List AgentGroup)
    → All (λ (g : AgentGroup). All (IsAgent agents) (agent_ids g.range)) groups
    → All
        (λ (g : AgentGroup).
          (i : ℕ) → g.range.start_index ≤ i → i ≤ g.range.end_index → HasMember agents g.range i)
        groups
ranges-HasMember agents [] h = tt
ranges-HasMember agents (g ∷ groups) (h, hs) = (
  λ i low high. agent_ids-HasMember agents g.range i h low high,
  ranges-HasMember agents groups hs,
)

module _ (D : Float) (randint : ℕ → ℕ → ℕ → ℕ) (outcome : Option Calibration) (cores : ℕ) where
  -- Agents stay, and all new ones are entered.
  add_agents-IsAgent :
      (fields : Dict (List Json)) (new : List (List ℕ)) (i : ℕ)
      (found found' : Dict Members × List ℕ)
      → add_agents D randint outcome cores fields new i found ≡ ok found'
      → ((a : List ℕ) → IsAgent found.0 a → IsAgent found'.0 a) × All (IsAgent found'.0) new
  unfolding add_agents
  add_agents-IsAgent fields [] i found found' h = (
    λ a p. subst (λ (f : Dict Members × List ℕ). IsAgent f.0 a) (ok-injective found found' h) p,
    tt,
  )
  add_agents-IsAgent fields (b ∷ new) i found found' h =
      let (agent, _, h₁) =
        bind-ok (agent_config D randint outcome cores i fields)
          (λ agent. track_start D randint outcome cores agent found.1 >>= (λ starts.
            add_agents D randint outcome cores fields new (i + 1)
              (insert (text_of b) agent found.0, starts)))
          found' h in
      let (starts, _, h₂) =
        bind-ok (track_start D randint outcome cores agent found.1)
          (λ starts.
            add_agents D randint outcome cores fields new (i + 1)
              (insert (text_of b) agent found.0, starts))
          found' h₁ in
      let (kept, entered) =
        add_agents-IsAgent fields new (i + 1) (insert (text_of b) agent found.0, starts) found'
          h₂ in
      (
        λ a p. kept a (lookup-kept (text_of a) (text_of b) agent found.0 p),
        (kept b (lookup-entered (text_of b) agent found.0), entered),
      )

  expand_group-IsAgent :
      (total : ℕ) (start : Option ℕ) (g : AgentGroup) (e e' : Expanded)
      → expand_group D randint outcome cores total start g e ≡ ok e'
      → ((a : List ℕ) → IsAgent e.agents a → IsAgent e'.agents a)
        × All (IsAgent e'.agents) (agent_ids g.range)
  unfolding expand_group
  expand_group-IsAgent total start g e e' h =
      let base = base_fields g.properties in
      let user = runs_script "regular_user" g.properties in
      let expanded =
        λ (s : Dict Json × Calibrator) (v : Dict (List Json) × Offsets) (f : Dict Members × List ℕ).
          group_result s v f in
      let (s, _, h₁) =
        bind-ok
          (with_defaults D randint outcome cores g total base (stagger_fields g.properties)
            e.calibrator)
          (λ s.
            expand_fields D randint outcome cores user start g.count s.0 base e.offsets >>= (λ v.
              add_agents D randint outcome cores v.0 (agent_ids g.range) 0 (e.agents, e.starts)
              >>= (λ f. ok (expanded s v f))))
          e' h in
      let (v, _, h₂) =
        bind-ok (expand_fields D randint outcome cores user start g.count s.0 base e.offsets)
          (λ v.
            add_agents D randint outcome cores v.0 (agent_ids g.range) 0 (e.agents, e.starts)
            >>= (λ f. ok (expanded s v f)))
          e' h₁ in
      let (f, added, h₃) =
        bind-ok (add_agents D randint outcome cores v.0 (agent_ids g.range) 0 (e.agents, e.starts))
          (λ f. ok (expanded s v f)) e' h₂ in
      subst
        (λ (x : Expanded).
          ((a : List ℕ) → IsAgent e.agents a → IsAgent x.agents a)
          × All (IsAgent x.agents) (agent_ids g.range))
        (ok-injective (expanded s v f) e' h₃)
        (add_agents-IsAgent v.0 (agent_ids g.range) 0 (e.agents, e.starts) f added)
    where
      group_result :
          Dict Json × Calibrator → Dict (List Json) × Offsets → Dict Members × List ℕ → Expanded
      group_result s v f = record { agents = f.0; starts = f.1; offsets = v.1; calibrator = s.1 }

  All-kept :
      (agents agents' : Dict Members) (new : List (List ℕ))
      → ((a : List ℕ) → IsAgent agents a → IsAgent agents' a)
      → All (IsAgent agents) new
      → All (IsAgent agents') new
  All-kept agents agents' [] kept h = tt
  All-kept agents agents' (a ∷ new) kept (p, h) = (kept a p, All-kept agents agents' new kept h)

  expand_groups-IsAgent :
      (total : ℕ) (start : Option ℕ) (groups : List AgentGroup) (e e' : Expanded)
      → expand_groups D randint outcome cores total start groups e ≡ ok e'
      → ((a : List ℕ) → IsAgent e.agents a → IsAgent e'.agents a)
        × All (λ (g : AgentGroup). All (IsAgent e'.agents) (agent_ids g.range)) groups
  unfolding expand_groups
  expand_groups-IsAgent total start [] e e' h =
      (λ a p. subst (λ (x : Expanded). IsAgent x.agents a) (ok-injective e e' h) p, tt)
  expand_groups-IsAgent total start (g ∷ groups) e e' h =
      let (m, first, h₁) =
        bind-ok (expand_group D randint outcome cores total start g e)
          (expand_groups D randint outcome cores total start groups) e' h in
      let (kept, entered) = expand_group-IsAgent total start g e m first in
      let (later, others) = expand_groups-IsAgent total start groups m e' h₁ in
      (
        λ a p. later a (kept a p),
        (All-kept m.agents e'.agents (agent_ids g.range) later entered, others),
      )

  -- Where the groups of a scenario are expanded without an error, for every number from the
  -- first to the last of a group's range there is an agent whose id is the range's prefix and
  -- that number in digits, padded to the range's width, whichever staggers and defaults the
  -- groups have.
  pub expand_agent_groups-IsAgent :
      (total : ℕ) (start : Option ℕ) (groups : List AgentGroup) (c : Calibrator) (e : Expanded)
      → expand_agent_groups D randint outcome cores total start groups c ≡ ok e
      → All
          (λ (g : AgentGroup).
            (i : ℕ)
            → g.range.start_index ≤ i
            → i ≤ g.range.end_index
            → HasMember e.agents g.range i)
          groups
  unfolding expand_agent_groups
  expand_agent_groups-IsAgent total start groups c e h =
      ranges-HasMember e.agents groups (expand_groups-IsAgent total start groups _ e h).1

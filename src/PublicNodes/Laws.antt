-- ===== src/PublicNodes/Laws.antt =====
-- The nodes that agents/public_node_discovery.py offers.
use zano_shadow_sim.Base.{
  ℕ, ◌-◌, ◌%◌, ◌<◌, ◌≡◌, refl, inl, inr, Bool, true, false, not, ◌&&◌, Option, none, some, List, [],
  ◌∷◌, String, ltb, str_eq, if◌then◌else◌, is_empty, contains, length, get_elem?, get_elem?-of_lt,
  All-get_elem?, ok, err, arith, All, Bool-cases, Option-cases, eq_iff,
}
use mathlib.Core.Path.{subst}
use native.Mathlib.Nat.{mod-lt}
use zano_shadow_sim.PublicNodes.{
  Node, Discovery, DaemonSelectionStrategy, random, first, round_robin, Registry, available_nodes,
  cached, reload, get_public_nodes, without, pick, select_daemon, update_entry,
}

-- The node is marked as available.
abbrev pub IsUp : Node → Type 0
IsUp n = str_eq n.status "available" ≡ true

-- The cache holds available nodes only.
abbrev pub IsClean : Option (List Node) → Type 0
IsClean none = Unit
IsClean (some nodes) = All IsUp nodes

available_nodes-IsUp : (nodes : List Node) → All IsUp (available_nodes nodes)
unfolding available_nodes
available_nodes-IsUp [] = tt
available_nodes-IsUp (n ∷ nodes) = elim (Bool-cases (str_eq n.status "available")) [
  | inl e ↦ rw e (e, available_nodes-IsUp nodes)
  | inr e ↦ rw e (available_nodes-IsUp nodes)
]

-- What is answered is available, and so is what is cached then.
abbrev AnswersUp : List Node × Discovery → Type 0
AnswersUp (nodes, d) = All IsUp nodes × IsClean d.cache

reload-AnswersUp :
    (now : ℕ) (file : Registry) (d : Discovery) → IsClean d.cache → AnswersUp (reload now file d)
unfolding reload
reload-AnswersUp now (err message) d c = (tt, c)
reload-AnswersUp now (ok none) d c = (tt, c)
reload-AnswersUp now (ok (some nodes)) d c =
    (available_nodes-IsUp nodes, available_nodes-IsUp nodes)

get_public_nodes-AnswersUp :
    (force_refresh : Bool) (now : ℕ) (file : Registry) (d : Discovery)
    → IsClean d.cache
    → AnswersUp (get_public_nodes force_refresh now file d)
unfolding get_public_nodes cached
get_public_nodes-AnswersUp force_refresh now file d c = elim (Option-cases d.cache) [
  | inl e ↦ rw (e, get_public_nodes, cached) (reload-AnswersUp now file d c)
  | inr (nodes, e) ↦
      let up : All IsUp nodes = subst IsClean e c in
      let valid = not force_refresh && ltb (now - d.cache_time) d.cache_ttl in
      elim (Bool-cases valid) [
        | inl v ↦ rw (e, v, get_public_nodes, cached) (up, c)
        | inr v ↦ rw (e, v, get_public_nodes, cached) (reload-AnswersUp now file d c)
      ]
]

-- Within the time to live after a refresh that read a list of nodes, its available nodes are
-- answered again and the state stays as it is, whatever the file holds then.
pub get_public_nodes_again :
    (now later : ℕ) (nodes : List Node) (file : Registry) (d : Discovery)
    → later - now < d.cache_ttl
    → let d' = (get_public_nodes true now (ok (some nodes)) d).1 in
      get_public_nodes false later file d' ≡ (available_nodes nodes, d')
unfolding get_public_nodes cached reload
get_public_nodes_again now later nodes file d h = elim (Option-cases d.cache) [
  | inl e ↦ ground (arith, e)
  | inr (held, e) ↦ ground (arith, e)
]

-- The node may be answered.
abbrev pub Serves : List String → Node → Type 0
Serves exclude_ids n = IsUp n × (contains n.agent_id exclude_ids ≡ false)

without-Serves :
    (exclude_ids : List String) (nodes : List Node)
    → All IsUp nodes
    → All (Serves exclude_ids) (without exclude_ids nodes)
unfolding without
without-Serves exclude_ids [] up = tt
without-Serves exclude_ids (n ∷ nodes) (u, up) =
    elim (Bool-cases (contains n.agent_id exclude_ids)) [
      | inl e ↦ rw e (without-Serves exclude_ids nodes up)
      | inr e ↦ rw e ((u, e), without-Serves exclude_ids nodes up)
    ]

-- A random index is one of the list's.
abbrev pub DrawsBelow : (ℕ → ℕ) → Type 0
DrawsBelow draw = (n : ℕ) → 0 < n → draw n < n

-- A node of the list is picked.
abbrev Picks : List Node → Option Node × Discovery → Type 0
Picks nodes o = (i : ℕ) × (n : Node) × (o.0 ≡ some n) × (get_elem? nodes i ≡ some n)

pick-Picks :
    (draw : ℕ → ℕ) (strategy : DaemonSelectionStrategy) (nodes : List Node) (d : Discovery)
    → DrawsBelow draw
    → 0 < length nodes
    → Picks nodes (pick draw strategy nodes d)
unfolding pick
pick-Picks draw random nodes d r h =
    let (n, e) = get_elem?-of_lt nodes (draw (length nodes)) (r (length nodes) h) in
    (draw (length nodes), n, e, e)
pick-Picks draw first nodes d r h = let (n, e) = get_elem?-of_lt nodes 0 h in (0, n, e, e)
pick-Picks draw round_robin nodes d r h =
    let i = d.round_robin_index % length nodes in
    let (n, e) = get_elem?-of_lt nodes i (mod-lt d.round_robin_index h) in (i, n, e, e)

-- An answered node may be answered, and there is none only where none of the nodes may be.
abbrev pub IsSelected : List String → List Node → Option Node → Type 0
IsSelected exclude_ids nodes none = is_empty (without exclude_ids nodes) ≡ true
IsSelected exclude_ids nodes (some n) = Serves exclude_ids n

pos_of_not_empty : (nodes : List Node) → is_empty nodes ≡ false → 0 < length nodes
pos_of_not_empty [] h = cc
pos_of_not_empty (n ∷ nodes) h = omega arith

-- Where the random index is one of the list's and the cache holds available nodes only, the
-- selected node under every strategy is available and not excluded, and there is no selection
-- only if none of the nodes in force is left after the exclusion.
pub select_daemon-IsSelected :
    (draw : ℕ → ℕ) (strategy : DaemonSelectionStrategy) (exclude_ids : List String) (now : ℕ)
    (file : Registry) (d : Discovery)
    → DrawsBelow draw
    → IsClean d.cache
    → IsSelected exclude_ids
        (get_public_nodes false now file d).0
        (select_daemon draw strategy exclude_ids now file d).0
unfolding select_daemon
select_daemon-IsSelected draw strategy exclude_ids now file d r c =
    let got = get_public_nodes false now file d in
    let nodes = without exclude_ids got.0 in
    elim (Bool-cases (is_empty nodes)) [
      | inl e ↦ rw (e, select_daemon) e
      | inr e ↦
          let (i, n, picked, here) =
            pick-Picks draw strategy nodes got.1 r (pos_of_not_empty nodes e) in
          rw (e, picked, select_daemon)
            (All-get_elem? (Serves exclude_ids) nodes i n
              (without-Serves exclude_ids got.0 (get_public_nodes-AnswersUp false now file d c).0)
              here)
    ]

-- The first entry of an agent.
abbrev pub entry_of : String → List Node → Option Node
entry_of agent_id [] = none
entry_of agent_id (n ∷ nodes) =
    if str_eq n.agent_id agent_id then some n else entry_of agent_id nodes

abbrev pub marked : String → ℕ → Option Node → Option Node
marked status registered_at none = none
marked status registered_at (some n) =
    some (record n { status = status; registered_at = registered_at })

-- What an update leaves: nothing where the agent has no entry; otherwise its first entry is marked,
-- and every other agent's is as before.
abbrev pub IsUpdate : String → String → ℕ → List Node → Option (List Node) → Type 0
IsUpdate agent_id status registered_at nodes none = entry_of agent_id nodes ≡ none
IsUpdate agent_id status registered_at nodes (some updated) =
    (j : String)
    → entry_of j updated ≡ (
        if str_eq j agent_id
        then marked status registered_at (entry_of agent_id nodes)
        else entry_of j nodes)

-- An update finds nothing only where the agent has no entry; otherwise the agent's first entry
-- has the new status and time, and every other agent's first entry is as before.
pub update_entry-IsUpdate :
    (agent_id status : String) (registered_at : ℕ) (nodes : List Node)
    → IsUpdate agent_id status registered_at nodes
        (update_entry agent_id status registered_at nodes)
unfolding update_entry
update_entry-IsUpdate agent_id status registered_at [] = refl
update_entry-IsUpdate agent_id status registered_at (n ∷ nodes) =
    let ih = update_entry-IsUpdate agent_id status registered_at nodes in
    let rest = update_entry agent_id status registered_at nodes in
    elim (Bool-cases (str_eq n.agent_id agent_id)) [
      | inl e ↦
          rw (e, update_entry)
            (λ j.
              ground (arith, e, eq_iff n.agent_id agent_id, eq_iff j agent_id, eq_iff n.agent_id j))
      | inr e ↦ elim (Option-cases rest) [
        | inl f ↦
            let at_rest = subst (IsUpdate agent_id status registered_at nodes) f ih in
            rw (e, f, update_entry) (ground (arith, e, at_rest))
        | inr (updated, f) ↦
            let at_rest = subst (IsUpdate agent_id status registered_at nodes) f ih in
            rw (e, f, update_entry)
              (λ j. ground (
                arith,
                e,
                at_rest j,
                eq_iff n.agent_id agent_id,
                eq_iff j agent_id,
                eq_iff n.agent_id j,
              ))
      ]
    ]

-- ===== src/PublicNodes.antt =====
-- agents/public_node_discovery.py: the registry of public nodes, its cache and the choice of a
-- daemon. What the file holds, the clock and the random index are arguments.
pub mod Laws
use zano_shadow_sim.Base.{
  ℕ, suc, ◌+◌, ◌-◌, ◌%◌, Bool, true, false, not, ◌&&◌, Option, none, some, List, [], ◌∷◌, ◌++◌,
  String, ltb, str_eq, if◌then◌else◌, is_empty, contains, length, get_elem?, Result, ok, err, codes,
  lower, text_eq,
}

-- An entry of public_nodes.json.
pub record Node : Type 0 where
  pub agent_id : String
  pub status : String
  pub ip_addr : String
  pub rpc_port : ℕ
  pub registered_at : ℕ

-- The attributes of PublicNodeDiscovery.
pub record Discovery : Type 0 where
  pub cache : Option (List Node)
  pub cache_time : ℕ
  pub cache_ttl : ℕ
  pub round_robin_index : ℕ

pub data DaemonSelectionStrategy : Type 0 where
  random first round_robin : DaemonSelectionStrategy

-- What the registry file reads as: `ok none` where it is absent, `err` where reading raises.
abbrev pub Registry : Type 0
Registry = Result (Option (List Node))

unfoldable pub available_nodes : List Node → List Node
available_nodes [] = []
available_nodes (n ∷ nodes) =
    let rest = available_nodes nodes in if str_eq n.status "available" then n ∷ rest else rest

-- The nodes in the cache, while it is valid.
unfoldable pub cached : Bool → ℕ → Discovery → Option (List Node)
cached force_refresh now d = elim d.cache [
  | none ↦ none
  | some nodes ↦
      if not force_refresh && ltb (now - d.cache_time) d.cache_ttl then some nodes else none
]

-- What is read when the cache does not serve.
unfoldable pub reload : ℕ → Registry → Discovery → List Node × Discovery
unfolding available_nodes
reload now (err message) d = ([], d)
reload now (ok none) d = ([], d)
reload now (ok (some nodes)) d =
    (available_nodes nodes, record d { cache = some (available_nodes nodes); cache_time = now })

unfoldable pub get_public_nodes : Bool → ℕ → Registry → Discovery → List Node × Discovery
unfolding cached reload
get_public_nodes force_refresh now file d = elim (cached force_refresh now d) [
  | some nodes ↦ (nodes, d)
  | none ↦ reload now file d
]

unfoldable pub without : List String → List Node → List Node
without exclude_ids [] = []
without exclude_ids (n ∷ nodes) =
    let rest = without exclude_ids nodes in
    if contains n.agent_id exclude_ids then rest else n ∷ rest

-- The choice among the nodes; `draw` is `random.choice` of so many.
unfoldable pub pick :
    (ℕ → ℕ) → DaemonSelectionStrategy → List Node → Discovery → Option Node × Discovery
pick draw random nodes d = (get_elem? nodes (draw (length nodes)), d)
pick draw first nodes d = (get_elem? nodes 0, d)
pick draw round_robin nodes d = (
  get_elem? nodes (d.round_robin_index % length nodes),
  record d { round_robin_index = d.round_robin_index + 1 },
)

-- The node whose `ip_addr:rpc_port` is answered.
unfoldable pub select_daemon :
    (ℕ → ℕ)
    → DaemonSelectionStrategy
    → List String
    → ℕ
    → Registry
    → Discovery
    → Option Node × Discovery
unfolding pick without
select_daemon draw strategy exclude_ids now file d =
    let (all_nodes, d') = get_public_nodes false now file d in
    let nodes = without exclude_ids all_nodes in
    if is_empty nodes then (none, d') else pick draw strategy nodes d'

-- The loop that updates the first entry of the agent; `none` where there is no such entry.
unfoldable pub update_entry : String → String → ℕ → List Node → Option (List Node)
update_entry agent_id status registered_at [] = none
update_entry agent_id status registered_at (n ∷ nodes) =
    let rest = update_entry agent_id status registered_at nodes in
    if str_eq n.agent_id agent_id
    then some (record n { status = status; registered_at = registered_at } ∷ nodes)
    else elim rest [ none ↦ none | some updated ↦ some (n ∷ updated) ]

-- Whether the update succeeded, and what the file holds then, where the write itself succeeds.
unfoldable pub update_node_status : String → String → ℕ → Registry → Bool × Registry
unfolding update_entry
update_node_status agent_id status registered_at (err message) = (false, err message)
update_node_status agent_id status registered_at (ok none) = (false, ok none)
update_node_status agent_id status registered_at (ok (some nodes)) =
    elim (update_entry agent_id status registered_at nodes) [
      | none ↦ (false, ok (some nodes))
      | some updated ↦ (true, ok (some updated))
    ]

unfoldable pub invalidate_cache : Discovery → Discovery
invalidate_cache d = record d { cache = none; cache_time = 0 }

-- `strategy_str`, with the default random
unfoldable pub parse_selection_strategy : Option String → DaemonSelectionStrategy
parse_selection_strategy none = random
parse_selection_strategy (some strategy_str) =
    let word = lower (codes strategy_str) in
    if text_eq word (codes "first")
    then first
    else if text_eq word (codes "round_robin")
    then round_robin
    else random

-- ===== src/Discovery.antt =====
-- How agents/agent_discovery.py looks for agents in the registry it has loaded.
pub mod Laws
use zano_shadow_sim.Base.{
  Bool, true, false, Option, none, some, List, [], ◌∷◌, String, Result, ok, err, ◌>>=◌, is_some,
  if◌then◌else◌,
}
use zano_shadow_sim.Shared.Json.{Json, Jsons, Members, to_list, get, put}
use zano_shadow_sim.Shared.Registration.{is_text}

-- `list(d.values())`
unfoldable pub values : Members → List Json
values Members.empty = []
values (Members.member k v ms) = v ∷ values ms

-- A copy that has an `id` where the agent has an `agent_id`.
unfoldable pub ensure_id : Members → Members
unfolding get put
ensure_id agent = elim (get "id" agent) [
  | some _ ↦ agent
  | none ↦ elim (get "agent_id" agent) [ some v ↦ put "id" v agent | none ↦ agent ]
]

unfoldable pub matching_agents : String → List Json → Result (List Members)
unfolding ensure_id get
matching_agents agent_type [] = ok []
matching_agents agent_type (Json.object agent ∷ agents) = do
  found ← matching_agents agent_type agents
  ok (if is_text agent_type (get "type" agent) then ensure_id agent ∷ found else found)
matching_agents agent_type (v ∷ agents) = err "AttributeError: no attribute 'get'"

-- The agents of a type in a loaded registry, in its order.
unfoldable pub find_agents_by_type : String → Members → Result (List Members)
unfolding matching_agents get values to_list
find_agents_by_type agent_type registry = elim (get "agents" registry) [
  | none ↦ ok []
  | some (Json.object agents) ↦ matching_agents agent_type (values agents)
  | some (Json.array agents) ↦ matching_agents agent_type (to_list agents)
  | some _ ↦ ok []
]

-- `attributes.get(attribute_name) == attribute_value`, with a value that is a string
unfoldable pub has_attribute : String → String → Members → Result Bool
unfolding get
has_attribute attribute_name attribute_value agent = elim (get "attributes" agent) [
  | none ↦ ok false
  | some (Json.object attributes) ↦ ok (is_text attribute_value (get attribute_name attributes))
  | some _ ↦ err "AttributeError: no attribute 'get'"
]

unfoldable pub listed_with_attribute : String → String → List Json → Result (List Members)
unfolding has_attribute ensure_id
listed_with_attribute name value [] = ok []
listed_with_attribute name value (Json.object agent ∷ agents) = do
  has ← has_attribute name value agent
  found ← listed_with_attribute name value agents
  ok (if has then ensure_id agent ∷ found else found)
listed_with_attribute name value (v ∷ agents) = err "AttributeError: no attribute 'get'"

-- In a dict the key is the agent's id.
unfoldable pub keyed_with_attribute : String → String → Members → Result (List Members)
unfolding has_attribute put
keyed_with_attribute name value Members.empty = ok []
keyed_with_attribute name value (Members.member agent_id (Json.object agent) agents) = do
  has ← has_attribute name value agent
  found ← keyed_with_attribute name value agents
  ok (if has then put "id" (Json.text agent_id) agent ∷ found else found)
keyed_with_attribute name value (Members.member agent_id v agents) =
    err "AttributeError: no attribute 'get'"

unfoldable pub find_agents_by_attribute : String → String → Members → Result (List Members)
unfolding listed_with_attribute keyed_with_attribute get to_list
find_agents_by_attribute name value registry = elim (get "agents" registry) [
  | none ↦ ok []
  | some (Json.array agents) ↦ listed_with_attribute name value (to_list agents)
  | some (Json.object agents) ↦ keyed_with_attribute name value agents
  | some _ ↦ ok []
]

-- ===== src/Shared/Registration.antt =====
-- How `_register_self` of agents/base_agent.py changes the agent registry.
pub mod Laws
use mathlib.Core.Option
use zano_shadow_sim.Base.{
  Bool, true, false, ◌≡◌, refl, Option, none, some, String, str_eq, Result, ok, err, ◌>>=◌,
  if◌then◌else◌,
}
use zano_shadow_sim.Shared.Json.{Json, Jsons, Members, snoc, get, put}

-- The attributes that an entry is made of; `class_name` is the class's name in snake case, without
-- `_agent` at the end.
pub record Registrant : Type 0 where
  pub agent_id : String
  pub class_name : String
  pub attributes : Json
  pub hash_rate : Json
  pub rpc_host : Json
  pub p2p_port : Json
  pub daemon_rpc_port : Json
  pub wallet_rpc_port : Json
  pub wallet_address : Json
  pub timestamp : Json

abbrev pub new_agent_entry : Registrant → Members
new_agent_entry a = Members.member "id" (Json.text a.agent_id) (
    Members.member "type" (Json.text a.class_name) (
      Members.member "attributes" a.attributes (
        Members.member "hash_rate" a.hash_rate (
          Members.member "ip_addr" a.rpc_host (
            Members.member "p2p_port" a.p2p_port (
              Members.member "daemon_rpc_port" a.daemon_rpc_port (
                Members.member "wallet_rpc_port" a.wallet_rpc_port (
                  Members.member "wallet_address" a.wallet_address
                    (Members.member "timestamp" a.timestamp Members.empty)))))))))

-- `value == agent_id`, for the value under a key
abbrev pub is_text : String → Option Json → Bool
is_text s (some (Json.text t)) = str_eq s t
is_text s _ = false

-- The loop over the entries: the first with the agent's id gets its address. There is no result
-- where there is none; an entry that is not a dict has no `get`.
unfoldable pub set_address : Registrant → Jsons → Result (Option Jsons)
unfolding get put
set_address a Jsons.nil = ok none
set_address a (Jsons.cons (Json.object entry) rest) =
    let later = do
      changed ← set_address a rest
      ok (Option.map (λ vs. Jsons.cons (Json.object entry) vs) changed)
    in if is_text a.agent_id (get "id" entry)
      then ok (some (Jsons.cons (Json.object (put "wallet_address" a.wallet_address entry)) rest))
      else later
set_address a (Jsons.cons v rest) = err "AttributeError: no attribute 'get'"

-- The entries after the loop and, where it found none, the new entry at the end.
unfoldable pub enter : Registrant → Jsons → Result Jsons
unfolding set_address snoc
enter a vs = do
  changed ← set_address a vs
  ok (elim changed [ some vs' ↦ vs' | none ↦ snoc vs (Json.object (new_agent_entry a)) ])

-- `data` under the lock: anything but a dict, or a dict whose `agents` is no list, raises.
unfoldable pub register : Registrant → Json → Result Json
unfolding enter get put
register a (Json.object ms) = elim (get "agents" ms) [
  | none ↦ do vs ← enter a Jsons.nil; ok (Json.object (put "agents" (Json.array vs) ms))
  | some (Json.array agents) ↦ do
    vs ← enter a agents
    ok (Json.object (put "agents" (Json.array vs) ms))
  | some _ ↦ err "'agents' is no list"
]
register a _ = err "AttributeError: no attribute 'get'"

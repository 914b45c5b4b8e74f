-- ===== src/User/Recipients.antt =====
-- `_get_other_agents` of agents/regular_user.py, on the shared files.
pub mod Laws
use zano_shadow_sim.Base.{
  Bool, true, false, Option, none, some, List, [], ◌∷◌, String, if◌then◌else◌, Result, ok, err,
  ◌>>=◌,
}
use zano_shadow_sim.Shared.Json.{Json, Jsons, Members, get, put, to_list}
use zano_shadow_sim.Shared.Values.{truthy}
use zano_shadow_sim.Shared.Registration.{is_text}

-- The values of the registry and of the files named after an agent's id.
pub record SharedInfo : Type 0 where
  pub agent_registry : Option Json
  pub user_info : Option Json → Option Json
  pub miner_info : Option Json → Option Json

unfoldable pub truthy_option : Option Json → Bool
unfolding truthy
truthy_option none = false
truthy_option (some v) = truthy v

-- `info.get('wallet_address')`, if there is an info
unfoldable pub info_address : Option Json → Result (Option Json)
unfolding get
info_address none = ok none
info_address (some (Json.object ms)) = ok (get "wallet_address" ms)
info_address (some v) = if truthy v then err "AttributeError: no attribute 'get'" else ok none

unfoldable pub address_from : SharedInfo → Members → Result (Option Json)
unfolding truthy_option info_address get
address_from shared agent =
    let later = do
      of_user ← info_address (shared.user_info (get "id" agent))
      (if truthy_option of_user
          then ok of_user
          else info_address (shared.miner_info (get "id" agent)))
    in if truthy_option (get "wallet_address" agent) then ok (get "wallet_address" agent) else later

-- The agent with its address before the others, where it has one.
unfoldable pub with_address : Members → Option Json → List Members → List Members
unfolding put truthy
with_address agent none others = others
with_address agent (some address) others =
    if truthy address then put "wallet_address" address agent ∷ others else others

unfoldable pub collect_others : SharedInfo → String → List Json → Result (List Members)
unfolding address_from with_address get
collect_others shared self [] = ok []
collect_others shared self (Json.object agent ∷ agents) =
    let another = do
      address ← address_from shared agent
      others ← collect_others shared self agents
      ok (with_address agent address others)
    in if is_text self (get "id" agent) then collect_others shared self agents else another
collect_others shared self (v ∷ agents) = err "AttributeError: no attribute 'get'"

-- `registry.get('agents', []) if registry else []`, to iterate over
unfoldable pub registered : Option Json → Result (List Json)
unfolding to_list get
registered none = ok []
registered (some (Json.object ms)) = elim (get "agents" ms) [
  | none ↦ ok []
  | some (Json.array agents) ↦ ok (to_list agents)
  | some (Json.object Members.empty) ↦ ok []
  | some _ ↦ err "'agents' is no list"
]
registered (some v) = if truthy v then err "AttributeError: no attribute 'get'" else ok []

unfoldable pub get_other_agents : SharedInfo → String → Result (List Members)
unfolding registered collect_others
get_other_agents shared self = do
  agents ← registered shared.agent_registry
  collect_others shared self agents

-- `a.get('id', '')`, of a text
unfoldable pub id_key : Members → String
unfolding get
id_key agent = elim (get "id" agent) [ some (Json.text s) ↦ s | _ ↦ "" ]

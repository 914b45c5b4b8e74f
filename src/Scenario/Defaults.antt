-- ===== src/Scenario/Defaults.antt =====
-- `apply_type_defaults` of scripts/scenario_parser.py, on properties as YAML gives them.
pub mod Laws
use zano_shadow_sim.Base.{
  Bool, true, false, ◌≡◌, refl, Option, none, some, List, [], ◌∷◌, String, str_eq, Result, ok, err,
  if◌then◌else◌,
}
use zano_shadow_sim.Shared.Json.{Json, Members, get, put}

-- `properties.pop(key, None)`, as far as the properties go
unfoldable pub remove : String → Members → Members
remove key Members.empty = Members.empty
remove key (Members.member k v ms) =
    let rest = remove key ms in if str_eq key k then rest else Members.member k v rest

-- `merged.update(ms)`
unfoldable pub update_with : Members → Members → Members
unfolding put
update_with Members.empty merged = merged
update_with (Members.member k v ms) merged = update_with ms (put k v merged)

-- What the key gets, from its default and the value that is there.
unfoldable pub merge_value : Json → Option Json → Json
unfolding update_with
merge_value default none = default
merge_value (Json.object base) (some (Json.object explicit)) =
    Json.object (update_with explicit base)
merge_value default (some v) = v

-- The loop over the defaults.
unfoldable pub merge_defaults : Members → Members → Members
unfolding merge_value get put
merge_defaults Members.empty properties = properties
merge_defaults (Members.member key default defaults) properties =
    merge_defaults defaults (put key (merge_value default (get key properties)) properties)

abbrev daemon_wallet_script : Members
daemon_wallet_script = Members.member "daemon" (Json.boolean true) (
    Members.member "wallet" (Json.boolean true)
      (Members.member "script" (Json.boolean true) Members.empty))

-- `AGENT_TYPE_DEFAULTS`
unfoldable pub agent_type_defaults : String → Option Members
agent_type_defaults agent_type =
    if str_eq agent_type "miner"
    then some (
        Members.member "daemon" (Json.boolean true) (
          Members.member "wallet" (Json.boolean true) (
            Members.member "script" (Json.boolean true) (
              Members.member "daemon_options"
                (Json.object (Members.member "start-mining" (Json.boolean true) Members.empty))
                Members.empty))))
    else if str_eq agent_type "user"
    then some daemon_wallet_script
    else if str_eq agent_type "relay"
    then some (Members.member "daemon" (Json.boolean true) Members.empty)
    else if str_eq agent_type "spy"
    then some (
        Members.member "daemon" (Json.boolean true) (
          Members.member "daemon_options"
            (Json.object (Members.member "out-peers" (Json.number "0") Members.empty))
            Members.empty))
    else if str_eq agent_type "distributor"
    then some daemon_wallet_script
    else if str_eq agent_type "monitor"
    then some daemon_wallet_script
    else none

unfoldable pub apply_type_defaults : Members → Result Members
unfolding remove merge_defaults agent_type_defaults
apply_type_defaults properties = elim (get "type" properties) [
  | none ↦ ok (remove "type" properties)
  | some Json.null ↦ ok (remove "type" properties)
  | some (Json.text agent_type) ↦ elim (agent_type_defaults agent_type) [
    | none ↦ err "Unknown agent type"
    | some defaults ↦ ok (merge_defaults defaults (remove "type" properties))
  ]
  | some _ ↦ err "Unknown agent type"
]

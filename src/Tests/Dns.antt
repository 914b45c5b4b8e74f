-- ===== src/Tests/Dns.antt =====
-- Examples of the laws of the resolver.
use zano_shadow_sim.Base.{
  ◌≡◌, refl, false, ℕ, Option, none, List, Result, some, [], ◌∷◌, ◌++◌, arith, ok, err, is_empty,
  All, text_eq, lower,
}
use zano_shadow_sim.Shared.Json.{Json, Jsons, Members, get, to_list}
use zano_shadow_sim.Shared.Values.{truthy, flag_in}
use zano_shadow_sim.Shared.Registration.{Registrant, enter}
use zano_shadow_sim.Shared.Registration.Laws.{all_objects, count}
use zano_shadow_sim.Dns.{Resolver, attributes_of, load_seed_ips}
use zano_shadow_sim.Dns.Laws.{
  IsReadable, seeds_of, miners_of, in_force, load_seed_ips-in_force, load_seed_ips-stays,
  answers_of,
}
use zano_shadow_sim.Dns.Registered.{seeds_of-enter}

abbrev miner_entry : Members
miner_entry = Members.member "id" (Json.text "miner-001") (
    Members.member "ip_addr" (Json.text "10.0.0.1") (
      Members.member "attributes"
        (Json.object (Members.member "is_miner" (Json.text "true") Members.empty)) Members.empty))

abbrev one_miner : Jsons
one_miner = Jsons.cons (Json.object miner_entry) Jsons.nil

abbrev miner_registry : Members
miner_registry = Members.member "agents" (Json.array one_miner) Members.empty

abbrev resolver : Resolver
resolver = record {
  seed_ips = Json.text "10.0.0.9" ∷ [];
  checkpoints = [];
  last_registry_load = 100;
}

one_miner-IsReadable : All IsReadable (to_list one_miner)
unfolding IsReadable attributes_of get to_list
one_miner-IsReadable = ((_, refl), tt)

load_seed_ips-in_force_example :
    (load_seed_ips 105 (some (ok (Json.object miner_registry))) resolver).1
    ≡ in_force (seeds_of (to_list one_miner)) (miners_of (to_list one_miner)) resolver.seed_ips
unfolding get
load_seed_ips-in_force_example =
    load_seed_ips-in_force 105 miner_registry one_miner resolver refl one_miner-IsReadable
      (omega arith)

-- An unreadable registry, one that is missing, and one without agents.
abbrev bad_registries : List (ℕ × Option (Result Json))
bad_registries =
    (105, some (err "no JSON")) ∷ (112, none) ∷ (130, some (ok (Json.object Members.empty))) ∷ []

load_seed_ips-stays_example : All (λ ips. is_empty ips ≡ false) (answers_of bad_registries resolver)
load_seed_ips-stays_example = load_seed_ips-stays bad_registries resolver refl

abbrev seed_flags : Members
seed_flags = Members.member "is_seed_node" (Json.text "True") Members.empty

abbrev seed_host : Registrant
seed_host = record {
  agent_id = "monero-seed-001";
  class_name = "base";
  attributes = Json.object seed_flags;
  hash_rate = Json.null;
  rpc_host = Json.text "10.0.0.7";
  p2p_port = Json.number "18080";
  daemon_rpc_port = Json.number "18081";
  wallet_rpc_port = Json.null;
  wallet_address = Json.null;
  timestamp = Json.number "946684800.0";
}

seeds_of-enter_example :
    (ws : Jsons) × (enter seed_host one_miner ≡ ok ws)
    × (seeds_of (to_list ws) ≡ seeds_of (to_list one_miner) ++ Json.text "10.0.0.7" ∷ [])
unfolding all_objects count flag_in truthy get text_eq lower
seeds_of-enter_example = seeds_of-enter seed_host seed_flags one_miner refl refl refl refl refl

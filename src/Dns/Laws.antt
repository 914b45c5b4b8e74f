-- ===== src/Dns/Laws.antt =====
-- Whose addresses the resolver answers with.
use mathlib.Core.List.{append-nil, append_assoc}
use mathlib.Core.Path.{ap₂}
use zano_shadow_sim.Base.{
  ℕ, ◌+◌, Bool, true, false, not, ◌&&◌, ◌≡◌, refl, ◌∙◌, inl, inr, Option, none, some, List, [], ◌∷◌,
  ◌++◌, String, arith, ltb, if◌then◌else◌, Result, ok, err, ◌≤◌, is_empty, Bool-cases, Option-cases,
  All,
}
use zano_shadow_sim.Shared.Json.{Json, Jsons, Members, get, to_list}
use zano_shadow_sim.Shared.Values.{truthy, flag_in}
use zano_shadow_sim.Dns.{
  Resolver, registry_cache_ttl, attributes_of, with_agent, collect_ips, agents_of_registry,
  preferred, ips_of_registry, install, load_seed_ips, SharedFiles, resolve, is_seed_domain,
  is_checkpoint_domain, normalize_domain, ends_with_dot,
}

-- An entry that is a dict and has a dict of attributes, or none.
unfoldable pub IsReadable : Json → Type 0
IsReadable (Json.object agent) = (attrs : Members) × (attributes_of agent ≡ ok attrs)
IsReadable _ = ⊥

abbrev pub is_seed : Members → Bool
is_seed attrs = flag_in "is_seed_node" attrs

abbrev is_only_miner : Members → Bool
is_only_miner attrs = not (flag_in "is_seed_node" attrs) && flag_in "is_miner" attrs

-- The attributes, or none where they are no dict.
unfoldable pub attrs_or_none : Result Members → Members
attrs_or_none (ok attrs) = attrs
attrs_or_none (err e) = Members.empty

-- The agent's address in a list, where it has one and its attributes pass the test.
unfoldable pub address_if : (Members → Bool) → Json → List Json
address_if p (Json.object agent) = elim (get "ip_addr" agent) [
  | none ↦ []
  | some ip ↦ if truthy ip && p (attrs_or_none (attributes_of agent)) then ip ∷ [] else []
]
address_if p _ = []

unfoldable pub addresses : (Members → Bool) → List Json → List Json
addresses p [] = []
addresses p (agent ∷ agents) = address_if p agent ++ addresses p agents

-- The addresses of the seed hosts, and those of the miners that are none.
unfoldable pub seeds_of : List Json → List Json
seeds_of agents = addresses is_seed agents

unfoldable pub miners_of : List Json → List Json
miners_of agents = addresses is_only_miner agents

with_agent-lem :
    (agent : Json) (s m : List Json)
    → IsReadable agent
    → with_agent agent (s, m)
      ≡ ok (s ++ address_if is_seed agent, m ++ address_if is_only_miner agent)
unfolding with_agent address_if IsReadable attrs_or_none
with_agent-lem (Json.object agent) s m (attrs, e) = elim (Option-cases (get "ip_addr" agent)) [
  | inl gone ↦ rw (with_agent, address_if, gone, append-nil s, append-nil m) refl
  | inr (ip, there) ↦ elim (Bool-cases (truthy ip)) [
    | inr blank ↦ rw (with_agent, address_if, there, blank, append-nil s, append-nil m) refl
    | inl full ↦ elim (Bool-cases (flag_in "is_seed_node" attrs)) [
      | inl seed ↦ rw (with_agent, address_if, there, full, e, seed, append-nil m) refl
      | inr other ↦ elim (Bool-cases (flag_in "is_miner" attrs)) [
        | inl miner ↦ rw (with_agent, address_if, there, full, e, other, miner, append-nil s) refl
        | inr neither ↦
            rw (with_agent, address_if, there, full, e, other, neither, append-nil s, append-nil m)
              refl
      ]
    ]
  ]
]
with_agent-lem Json.null s m h = absurd h
with_agent-lem (Json.boolean b) s m h = absurd h
with_agent-lem (Json.number b) s m h = absurd h
with_agent-lem (Json.text b) s m h = absurd h
with_agent-lem (Json.array b) s m h = absurd h

collect_ips-lem :
    (agents : List Json) (s m : List Json)
    → All IsReadable agents
    → collect_ips agents (s, m) ≡ ok (s ++ seeds_of agents, m ++ miners_of agents)
unfolding collect_ips seeds_of miners_of addresses
collect_ips-lem [] s m h = rw (append-nil s, append-nil m) refl
collect_ips-lem (agent ∷ agents) s m (h, hs) = rw (with_agent-lem agent s m h) (
    collect_ips-lem agents (s ++ address_if is_seed agent) (m ++ address_if is_only_miner agent) hs
    ∙ ap₂ (λ x y. ok (x, y)) (append_assoc s (address_if is_seed agent) (seeds_of agents))
        (append_assoc m (address_if is_only_miner agent) (miners_of agents)))

-- The addresses in force: seed hosts first, then miners, then those from before.
pub in_force : List Json → List Json → List Json → List Json
in_force (ip ∷ seeds) miners before = ip ∷ seeds
in_force [] (ip ∷ miners) before = ip ∷ miners
in_force [] [] before = before

install-in_force :
    (now : ℕ) (seeds miners : List Json) (r : Resolver)
    → (install now (ok (preferred (seeds, miners))) r).1 ≡ in_force seeds miners r.seed_ips
unfolding install preferred in_force
install-in_force now (ip ∷ seeds) miners r = refl
install-in_force now [] (ip ∷ miners) r = refl
install-in_force now [] [] r = refl

ltb-false : (a b : ℕ) → b ≤ a → ltb a b ≡ false
ltb-false a b h = ground arith

-- Once the cache has run out, with a registry of entries that are dicts and whose attributes,
-- where given, are a dict, the resolver's addresses are those of the seed hosts in order or,
-- where there are none, those of the miners or, where there are none either, those from before.
pub load_seed_ips-in_force :
    (now : ℕ) (ms : Members) (list : Jsons) (r : Resolver)
    → get "agents" ms ≡ some (Json.array list)
    → All IsReadable (to_list list)
    → r.last_registry_load + registry_cache_ttl ≤ now
    → (load_seed_ips now (some (ok (Json.object ms))) r).1
      ≡ in_force (seeds_of (to_list list)) (miners_of (to_list list)) r.seed_ips
unfolding load_seed_ips ips_of_registry
load_seed_ips-in_force now ms list r e h stale =
    rw (ltb-false now _ stale, agents_of_registry, e, collect_ips-lem (to_list list) [] [] h)
      (install-in_force now (seeds_of (to_list list)) (miners_of (to_list list)) r)

-- What is stored is what was answered, and it is not empty.
abbrev Stays : Resolver × List Json → Type 0
Stays (r, ips) = (r.seed_ips ≡ ips) × (is_empty ips ≡ false)

install-Stays :
    (now : ℕ) (loaded : Result (List Json)) (r : Resolver)
    → is_empty r.seed_ips ≡ false
    → Stays (install now loaded r)
unfolding install
install-Stays now (err e) r h = (refl, h)
install-Stays now (ok []) r h = (refl, h)
install-Stays now (ok (ip ∷ ips)) r h = (refl, refl)

load_seed_ips-Stays :
    (now : ℕ) (file : Option (Result Json)) (r : Resolver)
    → is_empty r.seed_ips ≡ false
    → Stays (load_seed_ips now file r)
unfolding load_seed_ips
load_seed_ips-Stays now none r h = (refl, h)
load_seed_ips-Stays now (some file) r h =
    elim (Bool-cases
      (ltb now (r.last_registry_load + registry_cache_ttl) && not (is_empty r.seed_ips))) [
        | inl fresh ↦ rw (fresh, load_seed_ips) (refl, h)
        | inr stale ↦ rw (stale, load_seed_ips) (install-Stays now (ips_of_registry file) r h)
      ]

-- A resolver's answers to one query after another, with the time and the registry of each.
pub answers_of : List (ℕ × Option (Result Json)) → Resolver → List (List Json)
answers_of [] r = []
answers_of ((now, file) ∷ queries) r =
    (load_seed_ips now file r).1 ∷ answers_of queries (load_seed_ips now file r).0

-- A resolver that has addresses answers every query of a sequence with some, each time with what
-- the queries before it have left stored, whether the registry is missing, unreadable, malformed
-- or without addresses.
pub load_seed_ips-stays :
    (queries : List (ℕ × Option (Result Json))) (r : Resolver)
    → is_empty r.seed_ips ≡ false
    → All (λ ips. is_empty ips ≡ false) (answers_of queries r)
unfolding answers_of
load_seed_ips-stays [] r h = tt
load_seed_ips-stays ((now, file) ∷ queries) r h =
    let (stored, filled) = load_seed_ips-Stays now file r h in
    (filled, load_seed_ips-stays queries (load_seed_ips now file r).0 (rw stored filled))

ends_with_dot-append : (s : List ℕ) → ends_with_dot (s ++ b'.' ∷ []) ≡ true
unfolding ends_with_dot
ends_with_dot-append [] = refl
ends_with_dot-append (c ∷ []) = refl
ends_with_dot-append (c ∷ d ∷ s) = ends_with_dot-append (d ∷ s)

pub resolve_dot :
    (now : ℕ) (files : SharedFiles) (qname : List ℕ) (qtype : String) (r : Resolver)
    → ends_with_dot qname ≡ false
    → resolve now files (qname ++ b'.' ∷ []) qtype r ≡ resolve now files qname qtype r
unfolding resolve is_seed_domain is_checkpoint_domain normalize_domain
resolve_dot now files qname qtype r h = rw (h, ends_with_dot-append qname) refl

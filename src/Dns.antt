-- ===== src/Dns.antt =====
-- The resolver of agents/dns_server.py.
pub mod Laws
pub mod Registered
use zano_shadow_sim.Base.{
  ℕ, zero, suc, ◌+◌, Bool, true, false, not, ◌&&◌, ◌||◌, Option, none, some, List, [], ◌∷◌, ◌++◌,
  map, String, str_eq, ltb, ◌==◌, if◌then◌else◌, Result, ok, err, ◌>>=◌, codes, is_empty, strip,
  all_digits, value, text_eq,
}
use zano_shadow_sim.Shared.Json.{Json, Jsons, Members, get, to_list}
use zano_shadow_sim.Shared.Values.{truthy, flag_in}

pub record Resolver : Type 0 where
  pub seed_ips : List Json
  pub checkpoints : List (ℕ × Json)
  pub last_registry_load : ℕ

abbrev pub registry_cache_ttl : ℕ
registry_cache_ttl = 5

-- The addresses of seed hosts and those of miners.
abbrev pub Ips : Type 0
Ips = List Json × List Json

-- `agent.get("attributes", {})`, of which `get` is then called
unfoldable pub attributes_of : Members → Result Members
attributes_of agent = elim (get "attributes" agent) [
  | none ↦ ok Members.empty
  | some (Json.object attrs) ↦ ok attrs
  | some _ ↦ err "AttributeError: no attribute 'get'"
]

-- One agent of the loop.
unfoldable pub with_agent : Json → Ips → Result Ips
unfolding attributes_of
with_agent (Json.object agent) (seed_ips, miner_ips) = elim (get "ip_addr" agent) [
  | none ↦ ok (seed_ips, miner_ips)
  | some ip ↦
      let listed = do
        attrs ← attributes_of agent
        ok (
            if flag_in "is_seed_node" attrs
            then (seed_ips ++ ip ∷ [], miner_ips)
            else if flag_in "is_miner" attrs
            then (seed_ips, miner_ips ++ ip ∷ [])
            else (seed_ips, miner_ips))
      in if truthy ip then listed else ok (seed_ips, miner_ips)
]
with_agent _ ips = err "AttributeError: no attribute 'get'"

unfoldable pub collect_ips : List Json → Ips → Result Ips
unfolding with_agent
collect_ips [] ips = ok ips
collect_ips (agent ∷ agents) ips = do more ← with_agent agent ips; collect_ips agents more

-- `registry.get("agents", [])`, to iterate over; what else could be iterated over has no agents.
unfoldable pub agents_of_registry : Json → Result (List Json)
unfolding to_list
agents_of_registry (Json.object ms) = elim (get "agents" ms) [
  | none ↦ ok []
  | some (Json.array agents) ↦ ok (to_list agents)
  | some _ ↦ err "'agents' is no list"
]
agents_of_registry _ = err "AttributeError: no attribute 'get'"

-- `seed_ips` or, where there are none, `miner_ips`
unfoldable pub preferred : Ips → List Json
preferred (seed_ips, miner_ips) = if is_empty seed_ips then miner_ips else seed_ips

unfoldable pub ips_of_registry : Result Json → Result (List Json)
unfolding agents_of_registry collect_ips preferred
ips_of_registry file = do
  registry ← file
  agents ← agents_of_registry registry
  ips ← collect_ips agents ([], [])
  ok (preferred ips)

-- The addresses that were read, unless there are none or the registry could not be read.
unfoldable pub install : ℕ → Result (List Json) → Resolver → Resolver × List Json
install now (err e) r = (r, r.seed_ips)
install now (ok []) r = (r, r.seed_ips)
install now (ok (ip ∷ ips)) r =
    (record r { seed_ips = ip ∷ ips; last_registry_load = now }, ip ∷ ips)

-- The registry file is there or not, and is read or not.
unfoldable pub load_seed_ips : ℕ → Option (Result Json) → Resolver → Resolver × List Json
unfolding ips_of_registry install
load_seed_ips now none r = (r, r.seed_ips)
load_seed_ips now (some file) r =
    if ltb now (r.last_registry_load + registry_cache_ttl) && not (is_empty r.seed_ips)
    then (r, r.seed_ips)
    else install now (ips_of_registry file) r

-- `int(k)`, of digits
unfoldable pub int_of : String → Result ℕ
int_of k =
    let s = strip (codes k) in
    if all_digits s && not (is_empty s) then ok (value s) else err "ValueError"

-- `d[height] = block_hash`
unfoldable pub set_checkpoint : ℕ → Json → List (ℕ × Json) → List (ℕ × Json)
set_checkpoint h v [] = (h, v) ∷ []
set_checkpoint h v ((k, w) ∷ d) = if h == k then (k, v) ∷ d else (k, w) ∷ set_checkpoint h v d

-- `{int(k): v for k, v in data.items()}`
unfoldable pub checkpoints_of : Members → List (ℕ × Json) → Result (List (ℕ × Json))
unfolding int_of set_checkpoint
checkpoints_of Members.empty d = ok d
checkpoints_of (Members.member k v ms) d = do h ← int_of k; checkpoints_of ms (set_checkpoint h v d)

unfoldable pub checkpoints_of_file : Result Json → Result (List (ℕ × Json))
unfolding checkpoints_of
checkpoints_of_file (ok (Json.object ms)) = checkpoints_of ms []
checkpoints_of_file (ok _) = err "AttributeError: no attribute 'items'"
checkpoints_of_file (err e) = err e

unfoldable pub load_checkpoints : Option (Result Json) → Resolver → Resolver
unfolding checkpoints_of_file
load_checkpoints none r = r
load_checkpoints (some file) r = elim (checkpoints_of_file file) [
  | ok d ↦ record r { checkpoints = d }
  | err e ↦ r
]

unfoldable pub ends_with_dot : List ℕ → Bool
ends_with_dot [] = false
ends_with_dot (c ∷ []) = c == b'.'
ends_with_dot (c ∷ d ∷ s) = ends_with_dot (d ∷ s)

unfoldable pub normalize_domain : List ℕ → List ℕ
unfolding ends_with_dot
normalize_domain domain = if ends_with_dot domain then domain else domain ++ b'.' ∷ []

-- `s in domains`
unfoldable pub among : List ℕ → List String → Bool
among s [] = false
among s (d ∷ domains) = text_eq s (codes d) || among s domains

abbrev pub seed_domains : List String
seed_domains =
    "seeds.moneroseeds.se." ∷ "seeds.moneroseeds.ae.org." ∷ "seeds.moneroseeds.ch."
    ∷ "seeds.moneroseeds.li." ∷ []

-- Main network, then test network.
abbrev pub checkpoint_domains : List String
checkpoint_domains =
    "checkpoints.moneropulse.se." ∷ "checkpoints.moneropulse.org." ∷ "checkpoints.moneropulse.net."
    ∷ "checkpoints.moneropulse.co." ∷ "testpoints.moneropulse.se." ∷ "testpoints.moneropulse.org."
    ∷ "testpoints.moneropulse.net." ∷ "testpoints.moneropulse.co." ∷ []

unfoldable pub is_seed_domain : List ℕ → Bool
unfolding normalize_domain among
is_seed_domain qname = among (normalize_domain qname) seed_domains

unfoldable pub is_checkpoint_domain : List ℕ → Bool
unfolding normalize_domain among
is_checkpoint_domain qname = among (normalize_domain qname) checkpoint_domains

pub data Answer : Type 0 where
  address : Json → Answer
  checkpoint : ℕ → Json → Answer

-- The answers, or NXDOMAIN.
pub data DnsReply : Type 0 where
  answers : List Answer → DnsReply
  nxdomain : DnsReply

-- The files as they are at the moment of the query.
pub record SharedFiles : Type 0 where
  pub agent_registry : Option (Result Json)
  pub dns_checkpoints : Option (Result Json)

unfoldable pub resolve : ℕ → SharedFiles → List ℕ → String → Resolver → Resolver × DnsReply
unfolding load_seed_ips load_checkpoints is_seed_domain is_checkpoint_domain
resolve now files qname qtype r =
    let (r', ips) = load_seed_ips now files.agent_registry r in
    let by_address : Resolver × DnsReply =
      (r', DnsReply.answers (map (λ ip. Answer.address ip) ips)) in
    let s = load_checkpoints files.dns_checkpoints r in
    let by_text : Resolver × DnsReply =
      (s, DnsReply.answers (map (λ (h, v). Answer.checkpoint h v) s.checkpoints)) in
    if str_eq qtype "A" && is_seed_domain qname
    then by_address
    else if str_eq qtype "TXT" && is_checkpoint_domain qname
    then by_text
    else (r, DnsReply.nxdomain)

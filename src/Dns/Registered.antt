-- ===== src/Dns/Registered.antt =====
-- An agent that registers as a seed host (agents/base_agent.py), and the resolver's addresses.
use mathlib.Core.List.{append_assoc}
use zano_shadow_sim.Base.{Bool, true, ◌≡◌, refl, sym, ap, ◌∙◌, List, [], ◌∷◌, ◌++◌, ok}
use zano_shadow_sim.Shared.Json.{Json, Jsons, Members, get, snoc, to_list, to_list-snoc}
use zano_shadow_sim.Shared.Values.{truthy, flag_in}
use zano_shadow_sim.Shared.Registration.{Registrant, new_agent_entry, enter}
use zano_shadow_sim.Shared.Registration.Laws.{all_objects, count, enter_new}
use zano_shadow_sim.Dns.{attributes_of}
use zano_shadow_sim.Dns.Laws.{is_seed, address_if, attrs_or_none, addresses, seeds_of}

addresses-append :
    (p : Members → Bool) (xs ys : List Json)
    → addresses p (xs ++ ys) ≡ addresses p xs ++ addresses p ys
unfolding addresses
addresses-append p [] ys = refl
addresses-append p (x ∷ xs) ys =
    ap (λ t. address_if p x ++ t) (addresses-append p xs ys)
    ∙ sym (append_assoc (address_if p x) (addresses p xs) (addresses p ys))

seed_entry :
    (a : Registrant) (attrs : Members)
    → a.attributes ≡ Json.object attrs
    → flag_in "is_seed_node" attrs ≡ true
    → truthy a.rpc_host ≡ true
    → seeds_of (Json.object (new_agent_entry a) ∷ []) ≡ a.rpc_host ∷ []
unfolding seeds_of addresses address_if attributes_of attrs_or_none get
seed_entry a attrs e seed full = rw (e, seed, full) refl

-- An agent with a new id, an address and a true `is_seed_node` among its attributes is entered
-- in a registry of dicts, and the addresses of its seed hosts are then those from before
-- followed by the agent's.
pub seeds_of-enter :
    (a : Registrant) (attrs : Members) (vs : Jsons)
    → all_objects vs ≡ true
    → count a.agent_id vs ≡ 0
    → a.attributes ≡ Json.object attrs
    → flag_in "is_seed_node" attrs ≡ true
    → truthy a.rpc_host ≡ true
    → (ws : Jsons) × (enter a vs ≡ ok ws)
      × (seeds_of (to_list ws) ≡ seeds_of (to_list vs) ++ a.rpc_host ∷ [])
unfolding seeds_of addresses
seeds_of-enter a attrs vs objects new e seed full = (
  snoc vs (Json.object (new_agent_entry a)),
  enter_new a vs objects new,
  rw (to_list-snoc vs (Json.object (new_agent_entry a))) (
      addresses-append is_seed (to_list vs) (Json.object (new_agent_entry a) ∷ [])
      ∙ ap (λ t. seeds_of (to_list vs) ++ t) (seed_entry a attrs e seed full)),
)

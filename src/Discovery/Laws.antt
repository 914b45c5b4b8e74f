-- ===== src/Discovery/Laws.antt =====
-- An agent that registers (agents/base_agent.py), and the search for agents by type.
use zano_shadow_sim.Base.{
  true, ◌≡◌, refl, ◌∙◌, List, [], ◌∷◌, ◌++◌, String, str_eq, ok, if◌then◌else◌, Bool-cases, inl,
  inr,
}
use zano_shadow_sim.Shared.Json.{Json, Jsons, Members, get, put, get-put, snoc, to_list}
use zano_shadow_sim.Shared.Registration.{Registrant, new_agent_entry, is_text, enter}
use zano_shadow_sim.Shared.Registration.Laws.{all_objects, count, enter_new}
use zano_shadow_sim.Discovery.{matching_agents, ensure_id, find_agents_by_type}

-- The entry, where it is of the type.
abbrev pub entry_if : String → Registrant → List Members
entry_if t a = if str_eq t a.class_name then new_agent_entry a ∷ [] else []

matching_agents-snoc :
    (t : String) (a : Registrant) (vs : Jsons)
    → all_objects vs ≡ true
    → (found : List Members) × (matching_agents t (to_list vs) ≡ ok found)
      × (matching_agents t (to_list (snoc vs (Json.object (new_agent_entry a))))
          ≡ ok (found ++ entry_if t a))
unfolding matching_agents to_list snoc all_objects get ensure_id
matching_agents-snoc t a Jsons.nil h = ([], refl, refl)
matching_agents-snoc t a (Jsons.cons (Json.object ms) vs) h =
    let (found, e, e') = matching_agents-snoc t a vs h in
    elim (Bool-cases (is_text t (get "type" ms))) [
      | inl same ↦ (ensure_id ms ∷ found, rw (e, same) refl, rw (e', same) refl)
      | inr other ↦ (found, rw (e, other) refl, rw (e', other) refl)
    ]
matching_agents-snoc t a (Jsons.cons Json.null vs) h = absurd cc
matching_agents-snoc t a (Jsons.cons (Json.boolean b) vs) h = absurd cc
matching_agents-snoc t a (Jsons.cons (Json.number b) vs) h = absurd cc
matching_agents-snoc t a (Jsons.cons (Json.text b) vs) h = absurd cc
matching_agents-snoc t a (Jsons.cons (Json.array b) vs) h = absurd cc

find_agents_by_type-put :
    (t : String) (vs : Jsons) (ms : Members)
    → find_agents_by_type t (put "agents" (Json.array vs) ms) ≡ matching_agents t (to_list vs)
unfolding find_agents_by_type
find_agents_by_type-put t vs ms =
    rw (find_agents_by_type, get-put "agents" "agents" (Json.array vs) ms) refl

-- An agent with a new id is entered in a registry of dicts, and in a loaded registry that lists
-- these entries the search for a type then finds what it found before, followed by the agent's
-- entry where the type is its own.
pub find_agents_by_type-enter :
    (a : Registrant) (vs : Jsons) (registry : Members)
    → all_objects vs ≡ true
    → count a.agent_id vs ≡ 0
    → (ws : Jsons) × (enter a vs ≡ ok ws)
      × ((t : String)
          → (found : List Members) × (find_agents_by_type t (put "agents" (Json.array vs) registry)
              ≡ ok found)
            × (find_agents_by_type t (put "agents" (Json.array ws) registry)
                ≡ ok (found ++ entry_if t a)))
find_agents_by_type-enter a vs registry objects new = (
  snoc vs (Json.object (new_agent_entry a)),
  enter_new a vs objects new,
  λ t.
      let (found, e, e') = matching_agents-snoc t a vs objects in
      (
        found,
        find_agents_by_type-put t vs registry ∙ e,
        find_agents_by_type-put t (snoc vs (Json.object (new_agent_entry a))) registry ∙ e',
      ),
)

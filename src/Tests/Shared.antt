-- ===== src/Tests/Shared.antt =====
-- Examples of the laws of the shared state: agents that append to a list file.
use Prim.Native.Nat.{ℕ}
use zano_shadow_sim.Base.{
  max, ◌≡◌, refl, true, false, none, some, List, [], ◌∷◌, ◌++◌, String, str_eq, ok, if◌then◌else◌,
}
use zano_shadow_sim.Shared.Json.{Json, Jsons, Members}
use zano_shadow_sim.Shared.Jobs.{Format, Job, append, work, replay, read_shared_list}
use zano_shadow_sim.Shared.Registration.{Registrant, enter}
use zano_shadow_sim.Shared.Registration.Laws.{all_objects, count, entry_of, address_of, enter-lem}
use zano_shadow_sim.Shared.Steps.{Phase, System, quiet, Move, Reach, start, later, pick}
use zano_shadow_sim.Shared.Invariant.{mutual_exclusion}
use zano_shadow_sim.Shared.Serial.{Reach-replays, read_shared_list-appends}
use zano_shadow_sim.Shared.Progress.{lock_comes_free}

-- Files that hold the values themselves.
abbrev plain : Format
plain = record {
  Text = Json;
  no_text = Json.null;
  is_blank = λ t. false;
  loads = λ t. ok t;
  dumps = λ indent v. v;
}

abbrev item : Json
item = Json.text "payment"

abbrev stored : Json
stored = Json.array (Jsons.cons item Jsons.nil)

-- Registrant 0 holds the lock, and agent 1 waits for it.
abbrev contended : (t : System plain) × Reach (quiet none none) t []
contended = (
  _,
  later (later (later start (pick 0 (Move.call (append item)))) (pick 1 (Move.call (append item))))
      (pick 0 (Move.acquire refl)),
)

appends_to : work plain (append item) none ≡ ok stored
unfolding work zano_shadow_sim.Shared.Json.snoc
appends_to = refl

-- Registrant 0 has appended, and leaves.
abbrev appended : (t : System plain) × Reach (quiet none none) t (append item ∷ [])
appended = (
  _,
  later
      (later (later (later contended.1 (pick 0 (Move.compute appends_to))) (pick 0 Move.open_temp))
        (pick 0 Move.dump))
      (pick 0 (Move.rename refl)),
)

mutual_exclusion_example : ◌≡◌ {A = ℕ} 0 0
mutual_exclusion_example = mutual_exclusion contended.1 0 0 refl refl

Reach-replays_example : replay plain (append item ∷ []) none ≡ ok (some stored)
Reach-replays_example = Reach-replays plain appended.1

read_shared_list-appends_example :
    read_shared_list plain (some stored) ≡ read_shared_list plain none ++ item ∷ []
read_shared_list-appends_example =
    read_shared_list-appends plain (λ indent v. refl) (item ∷ []) appended.1

lock_comes_free_example :
    (t : System plain) × (more : List Job) × Reach contended.0 t more
    × (t.store.lock ≡ none)
    × (t.phases 0 ≡ Phase.idle)
lock_comes_free_example = lock_comes_free 0 contended.1 refl

abbrev miner : Registrant
miner = record {
  agent_id = "miner-001";
  class_name = "autonomous_miner";
  attributes = Json.object Members.empty;
  hash_rate = Json.number "10";
  rpc_host = Json.text "10.0.0.1";
  p2p_port = Json.number "18080";
  daemon_rpc_port = Json.number "18081";
  wallet_rpc_port = Json.number "18082";
  wallet_address = Json.text "4A";
  timestamp = Json.number "946684800.0";
}

-- A user's entry, and the miner's from before it had an address.
abbrev two_agents : Jsons
two_agents = Jsons.cons (Json.object (Members.member "id" (Json.text "user-001") Members.empty)) (
    Jsons.cons
      (Json.object (
        Members.member "id" (Json.text "miner-001")
          (Members.member "wallet_address" Json.null Members.empty)))
      Jsons.nil)

enter-lem_example :
    (ws : Jsons) × (enter miner two_agents ≡ ok ws)
    × (all_objects ws ≡ true)
    × ((k : String)
        → count k ws
          ≡ (if str_eq k "miner-001" then max 1 (count k two_agents) else count k two_agents))
    × (address_of (entry_of "miner-001" ws) ≡ some (Json.text "4A"))
    × ((k : String) → str_eq k "miner-001" ≡ false → entry_of k ws ≡ entry_of k two_agents)
enter-lem_example = enter-lem miner two_agents (unfold all_objects in refl)

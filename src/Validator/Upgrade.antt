-- ===== src/Validator/Upgrade.antt =====
-- `_analyze_upgrade` of scripts/ai_config/validator.py.
pub mod Laws
use zano_shadow_sim.Base.{
  ℕ, ◌+◌, ◌-◌, Bool, true, false, ◌&&◌, Option, none, some, List, [], ◌∷◌, String, ltb, leb,
  if◌then◌else◌, length, sum, is_empty,
}
use zano_shadow_sim.Float.{Float}
use zano_shadow_sim.Validator.Integers.{ℤ, is_below, min_of, max_of, min_of_ℤ}
use zano_shadow_sim.Validator.Agents.{AgentInfo, is_given}

pub record UpgradeInfo (D : Float) : Type 0 where
  pub enabled : Bool
  pub agents_with_phases : ℕ
  pub total_agents : ℕ
  pub v1_binary : Option String
  pub v2_binary : Option String
  pub upgrade_start_s : Option ℕ
  pub upgrade_end_s : Option ℕ
  pub min_stagger_s : Option ℕ
  pub max_stagger_s : Option ℕ
  pub avg_stagger_s : Option D.F
  pub min_gap_s : Option ℤ
  pub agents_with_invalid_gap : List String

-- `[x.f for x in xs if x.f is not None]`
unfoldable pub collect {ℓ κ} : {A : Type ℓ} {B : Type κ} → (A → Option B) → List A → List B
collect f [] = []
collect f (x ∷ xs) = elim (f x) [ none ↦ collect f xs | some y ↦ y ∷ collect f xs ]

-- `sorted(xs)`
unfoldable pub insert_in : ℕ → List ℕ → List ℕ
insert_in x [] = x ∷ []
insert_in x (y ∷ ys) = let rest = insert_in x ys in if leb x y then x ∷ y ∷ ys else y ∷ rest

unfoldable pub sorted : List ℕ → List ℕ
unfolding insert_in
sorted [] = []
sorted (x ∷ xs) = insert_in x (sorted xs)

-- The differences of neighbours, without those that are 0; the list is in order.
unfoldable pub staggers : List ℕ → List ℕ
staggers [] = []
staggers (x ∷ []) = []
staggers (x ∷ y ∷ ys) =
    let rest = staggers (y ∷ ys) in if ltb 0 (y - x) then (y - x) ∷ rest else rest

unfoldable pub binary_of : Option String → Option String → Option String
unfolding is_given
binary_of given before = if is_given given then given else before

-- The loop over the agents' binaries, which ends when both are known.
unfoldable pub binaries :
    List AgentInfo → Option String → Option String → Option String × Option String
unfolding binary_of
binaries [] v1 v2 = (v1, v2)
binaries (a ∷ agents) v1 v2 =
    let w1 = binary_of a.daemon_0 v1 in
    let w2 = binary_of a.daemon_1 v2 in
    let rest = binaries agents w1 w2 in if is_given w1 && is_given w2 then (w1, w2) else rest

unfoldable pub invalid_gaps : List AgentInfo → List String
unfolding is_below
invalid_gaps [] = []
invalid_gaps (a ∷ agents) =
    let rest = invalid_gaps agents in
    elim a.phase_gap_s [
      | none ↦ rest
      | some gap ↦ if is_below 30 gap then a.agent_id ∷ rest else rest
    ]

module _ (D : Float) where
  -- `UpgradeInfo()`
  abbrev pub no_upgrade : UpgradeInfo D
  no_upgrade = record {
    enabled = false;
    agents_with_phases = 0;
    total_agents = 0;
    v1_binary = none;
    v2_binary = none;
    upgrade_start_s = none;
    upgrade_end_s = none;
    min_stagger_s = none;
    max_stagger_s = none;
    avg_stagger_s = none;
    min_gap_s = none;
    agents_with_invalid_gap = [];
  }

  unfoldable pub average : List ℕ → Option D.F
  average [] = none
  average (x ∷ xs) = some (D.div (D.of_ℕ (sum (x ∷ xs))) (D.of_ℕ (length (x ∷ xs))))

  unfoldable pub analyze_upgrade : List AgentInfo → ℕ → UpgradeInfo D
  unfolding collect sorted staggers binaries invalid_gaps min_of max_of min_of_ℤ average
  analyze_upgrade phase_agents total_agents =
      let (v1, v2) = binaries phase_agents none none in
      let stop_times = collect (λ a. a.daemon_0_stop_s) phase_agents in
      let start_times = collect (λ a. a.daemon_1_start_s) phase_agents in
      let gaps = collect (λ a. a.phase_gap_s) phase_agents in
      let steps = staggers (sorted stop_times) in
      record {
        enabled = true;
        agents_with_phases = length phase_agents;
        total_agents = total_agents;
        v1_binary = v1;
        v2_binary = v2;
        upgrade_start_s = min_of stop_times;
        upgrade_end_s = max_of start_times;
        min_stagger_s = min_of steps;
        max_stagger_s = max_of steps;
        avg_stagger_s = average steps;
        min_gap_s = min_of_ℤ gaps;
        agents_with_invalid_gap = invalid_gaps phase_agents;
      }

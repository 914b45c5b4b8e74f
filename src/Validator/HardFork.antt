-- ===== src/Validator/HardFork.antt =====
-- The checks of scripts/ai_config/validator.py on hard fork schedules.
use zano_shadow_sim.Base.{
  ℕ, zero, suc, Bool, true, false, not, ◌&&◌, ◌||◌, Option, none, some, List, [], ◌∷◌, ◌++◌, String,
  str_eq, if◌then◌else◌, codes, length, is_empty, is_some, starts_with, span_digits, drop, ◌==◌,
}
use zano_shadow_sim.Base.Dict.{Dict, lookup}
use zano_shadow_sim.Float.{Float}
use zano_shadow_sim.Validator.Config.{AgentConfig, General, Problem}
use zano_shadow_sim.Validator.Agents.{is_given}

-- `:\d+`, and what follows the digits
unfoldable pub height_after : List ℕ → Option (List ℕ)
height_after [] = none
height_after (c ∷ s) =
    let (ds, rest) = span_digits s in if c == b':' && not (is_empty ds) then some rest else none

-- `(,\d+:\d+)*` up to the end; a pair is not empty, so the text's length is fuel enough.
unfoldable pub pairs : ℕ → List ℕ → Bool
unfolding height_after
pairs fuel [] = true
pairs zero (c ∷ s) = false
pairs (suc fuel) (c ∷ s) =
    let (ds, rest) = span_digits s in
    let more : Bool = elim (height_after rest) [ none ↦ false | some after ↦ pairs fuel after ] in
    c == b',' && not (is_empty ds) && more

-- `re.fullmatch(r'1:0(,\d+:\d+)+', s)`
unfoldable pub is_schedule : String → Bool
unfolding pairs
is_schedule s =
    let rest = drop 3 (codes s) in
    starts_with (codes s) (codes "1:0") && not (is_empty rest) && pairs (length rest) rest

-- `sched and not re.fullmatch(...)`
unfoldable pub is_malformed : Option String → Bool
unfolding is_schedule
is_malformed none = false
is_malformed (some s) = not (str_eq s "") && not (is_schedule s)

-- One problem, where the test holds.
unfoldable pub report_if : Bool → Problem → List Problem
report_if b p = if b then p ∷ [] else []

abbrev pub hf_binary : String
hf_binary = "monerod-hf"

abbrev pub seeds : List String
seeds =
    "monero-seed-001" ∷ "monero-seed-002" ∷ "monero-seed-003" ∷ "monero-seed-004"
    ∷ "monero-seed-005" ∷ "monero-seed-006" ∷ []

unfoldable pub is_stock : Option String → Bool
is_stock none = false
is_stock (some d) = not (str_eq d "") && not (str_eq d hf_binary)

unfoldable pub has_value : String → Dict String → Bool
has_value v [] = false
has_value v ((k, w) ∷ d) = str_eq w v || has_value v d

module _ (D : Float) where
  -- The sections that are dicts.
  unfoldable pub agent_cfgs : Dict (Option (AgentConfig D)) → Dict (AgentConfig D)
  agent_cfgs [] = []
  agent_cfgs ((k, none) ∷ agents) = agent_cfgs agents
  agent_cfgs ((k, some c) ∷ agents) = (k, c) ∷ agent_cfgs agents

  unfoldable pub uses_hf_binary : AgentConfig D → Bool
  unfolding has_value
  uses_hf_binary c = elim c.daemon [
    | none ↦ has_value hf_binary c.phases
    | some d ↦ str_eq d hf_binary || has_value hf_binary c.phases
  ]

  unfoldable pub any_hf : Dict (AgentConfig D) → Bool
  unfolding uses_hf_binary is_given
  any_hf [] = false
  any_hf ((k, c) ∷ cfgs) = is_given c.hard_forks || uses_hf_binary c || any_hf cfgs

  unfoldable pub agent_errors : Dict (AgentConfig D) → List Problem
  unfolding report_if is_stock
  agent_errors [] = []
  agent_errors ((aid, cfg) ∷ cfgs) =
      report_if (is_stock cfg.daemon) (Problem.stock_daemon aid)
      ++ report_if (not (is_empty cfg.phases)) (Problem.phases_with_schedule aid)
      ++ agent_errors cfgs

  unfoldable pub absent : List String → Dict (AgentConfig D) → List String
  absent [] cfgs = []
  absent (s ∷ ss) cfgs =
      let rest = absent ss cfgs in if is_some (lookup s cfgs) then rest else s ∷ rest

  unfoldable pub schedule_errors : Dict (AgentConfig D) → List Problem
  unfolding report_if is_malformed
  schedule_errors [] = []
  schedule_errors ((aid, cfg) ∷ cfgs) =
      report_if (is_malformed cfg.hard_forks) (Problem.malformed_schedule aid)
      ++ schedule_errors cfgs

  unfoldable pub hf_errors : General D → Dict (AgentConfig D) → List Problem
  unfolding agent_errors absent schedule_errors is_given
  hf_errors general cfgs =
      report_if (not (is_given general.hard_forks)) Problem.no_default_schedule
      ++ (agent_errors cfgs
          ++ (report_if (not (is_empty (absent seeds cfgs)))
                (Problem.missing_seeds (absent seeds cfgs))
              ++ (report_if general.node_implementations Problem.mixed_implementations
                  ++ (report_if (is_malformed general.hard_forks)
                        (Problem.malformed_schedule "general.daemon_defaults")
                      ++ schedule_errors cfgs))))

  -- The errors where hard forks are used at all.
  unfoldable pub check_hard_forks : General D → Dict (AgentConfig D) → List Problem
  unfolding any_hf hf_errors
  check_hard_forks general cfgs =
      if is_given general.hard_forks || any_hf cfgs then hf_errors general cfgs else []

-- ===== src/Tests/Expand.antt =====
-- Examples of the expansion of a scenario's groups.
use zano_shadow_sim.Base.{
  List, some, ◌++◌, get_elem?, ℕ, ◌≡◌, ◌≤◌, refl, true, false, span_digits, decimal, none, [], ◌∷◌,
  codes, ok, All, value, strip, strip_left, strip_right, is_space, lower, all_digits, is_digit,
  starts_with, is_infix,
}
use zano_shadow_sim.Base.Dict.{Dict, lookup}
use zano_shadow_sim.Float.Ratio.{ratios}
use zano_shadow_sim.Timing.Duration.{parse_duration}
use zano_shadow_sim.Calibrate.{Calibrator}
use zano_shadow_sim.Shared.Json.{Json, Members}
use zano_shadow_sim.Scenario.{expand_stagger}
use zano_shadow_sim.Scenario.Fields.{AgentGroup, Offsets, is_stop, expand_fields}
use zano_shadow_sim.Scenario.Expand.{Expanded, expand_agent_groups}
use zano_shadow_sim.Scenario.Expand.Laws.{HasMember, expand_agent_groups-IsAgent}
use zano_shadow_sim.Scenario.Expand.Phases.{staggered, expand_fields-phases}

abbrev draws_low : ℕ → ℕ → ℕ → ℕ
draws_low low high i = low

abbrev off : Calibrator
off = record { auto_calibrate_disabled = true; auto_calibrate_attempted = false; file = none }

-- Two relays.
abbrev relays : AgentGroup
relays = record {
  range = record { id_prefix = codes "relay-"; width = 3; start_index = 1; end_index = 2 };
  count = 2;
  properties =
      Members.member "daemon" (Json.text "monerod")
        (Members.member "start_time" (Json.number "5") Members.empty);
}

abbrev expanded :
    (e : Expanded) × (expand_agent_groups ratios draws_low none 8 2 none (relays ∷ []) off ≡ ok e)
unfolding expand_agent_groups parse_duration strip strip_left strip_right is_space lower all_digits
    is_digit value starts_with is_infix span_digits expand_stagger decimal ratios
expanded = (_, refl)

expand_agent_groups-IsAgent_example :
    All
      (λ (g : AgentGroup).
        (i : ℕ)
        → g.range.start_index ≤ i
        → i ≤ g.range.end_index
        → HasMember expanded.0.agents g.range i)
      (relays ∷ [])
expand_agent_groups-IsAgent_example =
    expand_agent_groups-IsAgent ratios draws_low none 8 2 none (relays ∷ []) off expanded.0
      expanded.1

abbrev thirty_each : Dict Json
thirty_each = ("daemon_0_stop", Json.number "30") ∷ ("daemon_1_start", Json.number "30") ∷ []

abbrev first_group : Offsets
first_group = record { daemon = 0; wallet = 0 }

-- The fields of a group that is upgraded, with a start and a log level among them.
abbrev started : Dict Json
started = ("start_time", Json.text "5s") ∷ ("daemon_0", Json.text "monerod") ∷ []

abbrev between : Dict Json
between = ("daemon_1", Json.text "monerod-v2") ∷ []

abbrev upgraded :
    (r : Dict (List Json) × Offsets) × (expand_fields ratios draws_low none 8 false none 3
        thirty_each
        (started
          ++ ("daemon_0_stop", Json.number "7200")
            ∷ (between ++ ("daemon_1_start", Json.number "7500") ∷ []))
        first_group
      ≡ ok r)
unfolding expand_fields parse_duration strip strip_left strip_right is_space lower all_digits
    is_digit value starts_with is_infix span_digits expand_stagger decimal ratios lookup
upgraded = (_, refl)

expand_fields-phases_example :
    (get_elem? upgraded.0.0 2 ≡ some ("daemon_0_stop", staggered 7200 30 0 3))
    × (get_elem? upgraded.0.0 4 ≡ some ("daemon_1_start", staggered 7500 30 3 3))
unfolding lookup value is_stop starts_with is_infix
expand_fields-phases_example =
    expand_fields-phases ratios draws_low none 8 false none 3 thirty_each started between [] "7200"
      "7500" "30" "30" first_group upgraded.0 refl refl (refl, (refl, tt)) (refl, tt) upgraded.1

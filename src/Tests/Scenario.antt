-- ===== src/Tests/Scenario.antt =====
-- Examples of the laws on an expanded scenario's agents.
use mathlib.Core.Option
use zano_shadow_sim.Base.{
  ◌≡◌, refl, true, false, Option, none, some, [], ◌∷◌, String, str_eq, is_infix, ok, All,
}
use zano_shadow_sim.Base.Dict.{Dict, lookup}
use zano_shadow_sim.Float.Ratio.{ratios}
use zano_shadow_sim.Calibrate.{Calibrator}
use zano_shadow_sim.Shared.Json.{Json, Members, get}
use zano_shadow_sim.Scenario.Defaults.{agent_type_defaults, apply_type_defaults}
use zano_shadow_sim.Scenario.Defaults.Laws.{
  IsMerged, HasDicts, HasDict, IsDict, apply_type_defaults-IsMerged,
}
use zano_shadow_sim.Scenario.Auto.{
  Setting, AgentSettings, Gathered, nothing_gathered, gather, bump, resolve_auto_agent_values,
}
use zano_shadow_sim.Scenario.Auto.Laws.{IsResolved, resolve_auto_agent_values-IsResolved}

-- A relay without a wallet.
abbrev relay : Members
relay =
    Members.member "type" (Json.text "relay")
      (Members.member "start_time" (Json.text "0s") Members.empty)

abbrev relay_defaults : Members
relay_defaults = Members.member "daemon" (Json.boolean true) Members.empty

apply_type_defaults-IsMerged_example :
    (q : Members) × (apply_type_defaults relay ≡ ok q)
    × (get "type" q ≡ none)
    × ((j : String)
        → str_eq j "type" ≡ false
        → IsMerged (get j relay_defaults) (get j relay) (get j q))
unfolding get agent_type_defaults HasDicts HasDict IsDict
apply_type_defaults-IsMerged_example =
    apply_type_defaults-IsMerged relay relay_defaults "relay" refl refl (tt, (tt, tt))

abbrev user : Option Setting → AgentSettings
user interval = record {
  script = "agents.regular_user";
  start_time = some (Setting.seconds 0);
  transaction_interval = interval;
  activity_start_time = some Setting.auto;
  poll_interval = none;
  wait_time = none;
  daemon_0_start = none;
  daemon_0_stop = none;
  daemon_1_start = none;
  wallet_0_start = none;
  wallet_0_stop = none;
  wallet_1_start = none;
}

-- Two users that ask for different intervals.
abbrev two_users : Dict AgentSettings
two_users =
    ("user-001", user (some (Setting.seconds 600)))
    ∷ ("user-002", user (some (Setting.seconds 60)))
    ∷ []

abbrev gathered_users : Gathered
gathered_users = record { users = "user-001" ∷ "user-002" ∷ []; interval = 60; has_auto = false }

gathers_two : gather ratios two_users nothing_gathered ≡ ok gathered_users
unfolding gather is_infix
gathers_two = refl

abbrev fresh_calibrator : Calibrator
fresh_calibrator = record {
  auto_calibrate_disabled = true;
  auto_calibrate_attempted = false;
  file = none;
}

-- The calibration of a machine that needs long for each transaction.
abbrev slow : Calibrator
slow = record {
  auto_calibrate_disabled = true;
  auto_calibrate_attempted = false;
  file = some (record { p95 = 90000000; samples = 12 });
}

-- The first user's interval is lowered, although it is above the minimum.
lowers :
    Option.map
      (λ a. a.transaction_interval)
      (lookup "user-001" (bump ratios true 120 gathered_users two_users).1)
    ≡ some (some (Setting.seconds 120))
unfolding bump lookup
lowers = refl

abbrev monitor : AgentSettings
monitor = record (user none) {
  script = "agents.simulation_monitor";
  poll_interval = none;
  wait_time = some Setting.auto;
}

abbrev resolved_monitor : AgentSettings
resolved_monitor = record monitor {
  activity_start_time = some (Setting.seconds 18000);
  wait_time = some (Setting.seconds 14400);
}

resolves_monitor :
    resolve_auto_agent_values ratios none 4 true 3 18000 14400
      (("monitor", monitor) ∷ [])
      fresh_calibrator
    ≡ ok (("monitor", resolved_monitor) ∷ [])
unfolding resolve_auto_agent_values is_infix lookup
resolves_monitor = refl

resolve_auto_agent_values-IsResolved_example :
    All (IsResolved ratios) (("monitor", resolved_monitor) ∷ [])
resolve_auto_agent_values-IsResolved_example =
    resolve_auto_agent_values-IsResolved ratios none 4 true 3 18000 14400
      (("monitor", monitor) ∷ []) (("monitor", resolved_monitor) ∷ []) fresh_calibrator
      resolves_monitor

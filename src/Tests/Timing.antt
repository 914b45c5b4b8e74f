-- ===== src/Tests/Timing.antt =====
-- Examples of the laws of timeline.py: durations, batches and upgrades.
use zano_shadow_sim.Base.{◌≡◌, refl, true, some, [], ◌∷◌, arith, ok, contains}
use zano_shadow_sim.Base.Dict.{lookup}
use zano_shadow_sim.Float.Ratio.{ratios, ratios-IsExact}
use zano_shadow_sim.Timing.Duration.{parse_duration, format_time_offset}
use zano_shadow_sim.Timing.Duration.RoundTrip.{parse_duration-format_time_offset}
use zano_shadow_sim.Timing.Batches.{
  select, ordered_agents, calculate_upgrade_schedule, miners_first,
}
use zano_shadow_sim.Timing.Batches.Schedule.{lookup-calculate_upgrade_schedule}

parse_duration-format_time_offset_example :
    parse_duration ratios (format_time_offset 45296 true) ≡ ok 45296
parse_duration-format_time_offset_example =
    parse_duration-format_time_offset ratios ratios-IsExact 45296 (omega arith)

lookup-calculate_upgrade_schedule_example :
    lookup "user-001" (
      calculate_upgrade_schedule
        (λ seed agents. agents)
        ("user-001" ∷ "miner-001" ∷ [])
        7200
        60
        miners_first
        ("miner-001" ∷ [])
        42)
    ≡ some (7260, 7560)
unfolding ordered_agents select contains
lookup-calculate_upgrade_schedule_example =
    lookup-calculate_upgrade_schedule (λ seed agents. agents) ("user-001" ∷ "miner-001" ∷ []) 7200
      60 miners_first ("miner-001" ∷ []) 42 1 "user-001" (refl, (refl, tt)) refl

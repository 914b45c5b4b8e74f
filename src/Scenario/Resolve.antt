-- ===== src/Scenario/Resolve.antt =====
-- `_count_total_nodes`, `_resolve_timing`, `_resolve_general_section` and `format_time` of
-- scripts/scenario_parser.py.
pub mod Laws
use zano_shadow_sim.Base.{
  ℕ, ◌+◌, ◌/◌, ◌%◌, max, Bool, true, false, not, ◌&&◌, ◌||◌, Option, none, some, List, [], ◌∷◌,
  ◌++◌, String, str_eq, leb, ◌==◌, if◌then◌else◌, is_empty, is_some, decimal, Result, ok, err,
  ◌>>=◌,
}
use zano_shadow_sim.Base.Dict.{Dict}
use zano_shadow_sim.Float.{Float}
use zano_shadow_sim.Timing.{
  min_bootstrap_end_time_s, funding_period_s, large_sim_native_preemption_threshold,
}
use zano_shadow_sim.Timing.Duration.{parse_duration, with_suffix}
use zano_shadow_sim.Timing.Batches.{with_buffer}
use zano_shadow_sim.Shared.Json.{Json, Members, get, put}
use zano_shadow_sim.Scenario.Auto.{Setting}

-- `any(k in props for k in ('daemon', 'daemon_0', 'daemon_1'))`
unfoldable pub runs_daemon : Members → Bool
unfolding get
runs_daemon props =
    is_some (get "daemon" props) || is_some (get "daemon_0" props) || is_some (get "daemon_1" props)

-- The counts of the groups that run a daemon.
unfoldable pub count_groups : List (ℕ × Members) → ℕ
unfolding runs_daemon
count_groups [] = 0
count_groups ((n, props) ∷ groups) = (if runs_daemon props then n else 0) + count_groups groups

unfoldable pub count_singletons : Dict Members → ℕ
unfolding runs_daemon
count_singletons [] = 0
count_singletons ((k, props) ∷ agents) =
    (if runs_daemon props then 1 else 0) + count_singletons agents

unfoldable pub count_total_nodes : List (ℕ × Members) → Dict Members → ℕ
unfolding count_groups count_singletons
count_total_nodes agent_groups singleton_agents =
    count_groups agent_groups + count_singletons singleton_agents

-- The timing section's texts; an empty one is as none.
pub record Overrides : Type 0 where
  pub bootstrap_end_time : List ℕ
  pub md_start_time : List ℕ
  pub activity_start_time : List ℕ

-- `max(times) if times else 0`
unfoldable pub latest : List ℕ → ℕ
latest [] = 0
latest (t ∷ times) = max t (latest times)

module _ (D : Float) where
  -- An override or, where it is empty, the value.
  unfoldable pub override_or : List ℕ → Result ℕ → Result ℕ
  override_or [] value = value
  override_or (c ∷ text) value = parse_duration D (c ∷ text)

  unfoldable pub auto_bootstrap_end : List ℕ → ℕ
  unfolding latest with_buffer
  auto_bootstrap_end start_times = max min_bootstrap_end_time_s (with_buffer D (latest start_times))

  -- `bootstrap_end_time` of the general section, if it is given and not "auto".
  unfoldable pub general_or : Option Setting → ℕ → Result ℕ
  general_or none auto_end = ok auto_end
  general_or (some Setting.auto) auto_end = ok auto_end
  general_or (some (Setting.seconds n)) auto_end =
      let given = parse_duration D (decimal n) in if n == 0 then ok auto_end else given
  general_or (some (Setting.duration [])) auto_end = ok auto_end
  general_or (some (Setting.duration (c ∷ text))) auto_end = parse_duration D (c ∷ text)

  -- The end of the bootstrap, the distributor's start and the users' start.
  unfoldable pub resolve_timing : Overrides → Option Setting → List ℕ → Result (ℕ × ℕ × ℕ)
  unfolding override_or auto_bootstrap_end general_or
  resolve_timing overrides general_end start_times = do
    bootstrap_end_s ←
        override_or overrides.bootstrap_end_time
          (general_or general_end (auto_bootstrap_end start_times))
    md_start_s ← override_or overrides.md_start_time (ok bootstrap_end_s)
    activity_start_s ←
        override_or overrides.activity_start_time (ok (md_start_s + funding_period_s))
    ok (bootstrap_end_s, md_start_s, activity_start_s)

-- `general.get(key) == 'auto'`
unfoldable pub says_auto : Option Json → Bool
says_auto (some (Json.text s)) = str_eq s "auto"
says_auto _ = false

-- Texts of the section's own are printed by `print_text`.
module _ (print_text : List ℕ → String) where
  unfoldable pub printed_end : ℕ → Json
  printed_end n = Json.text (
      print_text
        (if n % 3600 == 0 then decimal (n / 3600) ++ b'h' ∷ [] else decimal n ++ b's' ∷ []))

  unfoldable pub resolve_general_section : ℕ → ℕ → Members → Members
  unfolding says_auto printed_end get put
  resolve_general_section total_nodes bootstrap_end_s general =
      let resolved =
        (if says_auto (get "bootstrap_end_time" general)
          then put "bootstrap_end_time" (printed_end bootstrap_end_s) general
          else general) in
      if leb large_sim_native_preemption_threshold total_nodes
        && not (is_some (get "native_preemption" resolved))
      then put "native_preemption" (Json.boolean true) resolved
      else resolved

unfoldable pub format_time : ℕ → List ℕ
unfolding with_suffix
format_time seconds =
    if seconds % 3600 == 0 && leb 3600 seconds
    then with_suffix (seconds / 3600) b'h'
    else if seconds % 60 == 0 && leb 60 seconds
    then with_suffix (seconds / 60) b'm'
    else with_suffix seconds b's'

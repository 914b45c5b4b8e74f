-- ===== src/Scenario/Resolve/Laws.antt =====
-- The times and the general section of an expanded scenario.
use zano_shadow_sim.Base.{
  ℕ, ◌+◌, ◌≤◌, ◌^◌, Bool, true, false, ◌≡◌, refl, ◌∙◌, some, List, [], String, str_eq, arith,
  if◌then◌else◌, ok,
}
use zano_shadow_sim.Float.{Float, IsExact}
use zano_shadow_sim.Timing.{min_bootstrap_end_time_s, funding_period_s}
use zano_shadow_sim.Timing.Duration.{parse_duration, format_time_offset}
use zano_shadow_sim.Timing.Duration.RoundTrip.{parse_duration-format_time_offset}
use zano_shadow_sim.Shared.Json.{Json, Members, get, put, get-put}
use zano_shadow_sim.Scenario.Auto.{Setting}
use zano_shadow_sim.Scenario.Resolve.{
  Overrides, override_or, auto_bootstrap_end, general_or, resolve_timing, says_auto, printed_end,
  resolve_general_section, format_time,
}

abbrev pub no_overrides : Overrides
no_overrides = record { bootstrap_end_time = []; md_start_time = []; activity_start_time = [] }

-- Without overrides the three times follow one another.
pub resolve_timing-auto :
    (D : Float) (start_times : List ℕ)
    → (t : ℕ) × (resolve_timing D no_overrides (some Setting.auto) start_times
        ≡ ok (t, t, t + funding_period_s))
      × (min_bootstrap_end_time_s ≤ t)
unfolding resolve_timing override_or general_or auto_bootstrap_end
resolve_timing-auto D start_times = (auto_bootstrap_end D start_times, refl, omega arith)

get-put_other :
    (b : Bool) (j k : String) (v : Json) (ms : Members)
    → str_eq j k ≡ false
    → get j (if b then put k v ms else ms) ≡ get j ms
get-put_other true j k v ms h = rw (get-put j k v ms, h) refl
get-put_other false j k v ms h = refl

-- No other key of the general section changes.
pub get-resolve_general_section :
    (print_text : List ℕ → String) (total_nodes end : ℕ) (general : Members) (j : String)
    → str_eq j "bootstrap_end_time" ≡ false
    → str_eq j "native_preemption" ≡ false
    → get j (resolve_general_section print_text total_nodes end general) ≡ get j general
unfolding resolve_general_section
get-resolve_general_section print_text total_nodes end general j h k =
    get-put_other _ j "native_preemption" (Json.boolean true) _ k
    ∙ get-put_other (says_auto (get "bootstrap_end_time" general)) j "bootstrap_end_time"
        (printed_end print_text end) general h

-- `format_time` prints as the timeline does, so that what it prints is read back.
pub format_time-format_time_offset : (n : ℕ) → format_time n ≡ format_time_offset n true
unfolding format_time format_time_offset
format_time-format_time_offset n = refl

pub parse_duration-format_time :
    (D : Float) → IsExact D → (n : ℕ) → n ≤ 2 ^ 53 → parse_duration D (format_time n) ≡ ok n
parse_duration-format_time D exact n h =
    rw (format_time-format_time_offset n) (parse_duration-format_time_offset D exact n h)

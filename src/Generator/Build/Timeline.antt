-- ===== src/Generator/Build/Timeline.antt =====
-- The timing of a generated configuration.

use mathlib.Core.Path.{subst}
use zano_shadow_sim.Base.{
  ℕ, ◌≤◌, ◌^◌, ◌≡◌, refl, ap, sym, ◌∙◌, Bool, true, false, Option, none, some, String, List, arith,
  str_eq, codes, ok, bind-ok, ok-injective, text_of, codes-text_of,
}
use zano_shadow_sim.Base.Dict.{Dict}
use zano_shadow_sim.Float.{Float, IsExact}
use zano_shadow_sim.Timing.Duration.{parse_duration, format_time_offset}
use zano_shadow_sim.Timing.Duration.RoundTrip.{parse_duration-format_time_offset}
use zano_shadow_sim.Calibrate.{Calibration, Calibrator}
use zano_shadow_sim.Shared.Json.{Json, Members, get, get-put}
use zano_shadow_sim.Generator.{GenerationConfig}
use zano_shadow_sim.Generator.Agents.{time_text}
use zano_shadow_sim.Generator.Agents.Laws.{IsChars-format_time_offset}
use zano_shadow_sim.Generator.Sections.{
  TimingInfo, build_general_config, general_start, put_if, put_dir, put_flag,
}
use zano_shadow_sim.Generator.Build.Plans.{make_plan-IsPlanned}
use zano_shadow_sim.Generator.Build.{
  Plan, make_plan, build, build_agents, assemble, timing_info, general_section, generate_config,
}
use zano_shadow_sim.Generator.Build.Lasting.{Lasts, make_plan-Lasts}

-- Under the key stands a text that `parse_duration` reads as these seconds.
abbrev pub IsTime : Float → String → ℕ → Members → Type 0
IsTime D key seconds ms =
    (text : String) × (get key ms ≡ some (Json.text text))
    × (parse_duration D (codes text) ≡ ok seconds)

-- The sections of a configuration.
abbrev pub HasSection : String → Members → Members → Type 0
HasSection key section config = get key config ≡ some (Json.object section)

get-put_if :
    (b : Bool) (j k : String) (v : Json) (ms : Members)
    → str_eq j k ≡ false
    → get j (put_if b k v ms) ≡ get j ms
unfolding put_if
get-put_if b j k v ms h = ground (arith, get-put j k v ms)

get-put_dir :
    (dir : Option String) (default j k : String) (ms : Members)
    → str_eq j k ≡ false
    → get j (put_dir dir default k ms) ≡ get j ms
unfolding put_dir
get-put_dir none default j k ms h = refl
get-put_dir (some dir) default j k ms h = get-put_if _ j k _ ms h

get-put_flag :
    (b : Option Bool) (j k : String) (ms : Members)
    → str_eq j k ≡ false
    → get j (put_flag b k ms) ≡ get j ms
unfolding put_flag
get-put_flag none j k ms h = refl
get-put_flag (some b) j k ms h = get-put j k (Json.boolean b) ms ∙ rw h refl

-- The end of the general section leaves its first entries alone.
get-build_general_config :
    (key dir : String) (duration parallelism seed bootstrap : ℕ) (fast : Bool) (threads : ℕ)
    (preempt : Option Bool) (total : ℕ) (mode : String) (v : Json)
    → str_eq key "runahead" ≡ false
    → str_eq key "process_threads" ≡ false
    → str_eq key "native_preemption" ≡ false
    → str_eq key "daemon_defaults" ≡ false
    → str_eq key "wallet_defaults" ≡ false
    → get key (general_start duration parallelism seed bootstrap fast mode) ≡ some v
    → get key (
        build_general_config dir duration parallelism seed bootstrap fast threads preempt total none
          none mode)
      ≡ some v
unfolding build_general_config put_dir
get-build_general_config key dir duration parallelism seed bootstrap fast threads preempt total mode
      v a b c d e h =
    rw
      (
        get-put key "wallet_defaults",
        e,
        get-put key "daemon_defaults",
        d,
        get-put_flag _ key _ _ c,
        get-put_if _ key _ _ _ b,
        get-put_if _ key _ _ _ a,
      )
      h

time_text-IsTime :
    (D : Float)
    → IsExact D
    → (key : String) (n : ℕ) (ms : Members) → n ≤ 2 ^ 53
    → get key ms ≡ some (time_text n)
    → IsTime D key n ms
unfolding time_text
time_text-IsTime D exact key n ms small h = (
  text_of (format_time_offset n true),
  h,
  ap (parse_duration D) (codes-text_of _ (IsChars-format_time_offset n))
      ∙ parse_duration-format_time_offset D exact n small,
)

-- What is stated of a configuration and its timing.
abbrev pub IsTimed :
    Float → (ℕ → List String → List String) → GenerationConfig → Members → TimingInfo → Type 0
IsTimed D shuffle cfg config info =
    Lasts shuffle cfg info info.upgrade
    × ((general : Members) × HasSection "general" general config
        × IsTime D "stop_time" info.duration_s general
        × IsTime D "bootstrap_end_time" info.bootstrap_end_time_s general)

assemble-IsTimed :
    (D : Float)
    → IsExact D
    → (shuffle : ℕ → List String → List String) (dir : String) (cfg : GenerationConfig) (p : Plan)
      (agents : Dict Members)
    → Lasts shuffle cfg (timing_info cfg p) (timing_info cfg p).upgrade
    → p.duration_s ≤ 2 ^ 53
    → p.bootstrap_end_time_s ≤ 2 ^ 53
    → IsTimed D shuffle cfg (assemble dir cfg p agents) (timing_info cfg p)
unfolding assemble general_section timing_info general_start get
assemble-IsTimed D exact shuffle dir cfg p agents lasts long late = (
  lasts,
  (
    general_section dir cfg p,
    refl,
    time_text-IsTime D exact "stop_time" p.duration_s (general_section dir cfg p) long (
        get-build_general_config "stop_time" dir p.duration_s cfg.parallelism cfg.simulation_seed
          p.bootstrap_end_time_s cfg.fast_mode cfg.process_threads cfg.native_preemption
          cfg.total_agents cfg.fallback_seeds_mode _ refl refl refl refl refl refl),
    time_text-IsTime D exact "bootstrap_end_time" p.bootstrap_end_time_s (general_section dir cfg p)
        late
        (get-build_general_config "bootstrap_end_time" dir p.duration_s cfg.parallelism
          cfg.simulation_seed p.bootstrap_end_time_s cfg.fast_mode cfg.process_threads
          cfg.native_preemption cfg.total_agents cfg.fallback_seeds_mode _ refl refl refl refl refl
          refl),
  ),
)

-- Where floats are exact on whole numbers up to 2 ^ 53 and the duration and the end of the
-- bootstrap are at most that, `parse_duration` reads both of them back from the general section
-- of a generated configuration, and the duration leaves two hours after the start of activity
-- or, with an upgrade, which is then the one that was asked for, the wanted time after the
-- restart of every agent in the upgrade's schedule.
pub generate_config-times :
    (D : Float)
    → IsExact D
    → (shuffle : ℕ → List String → List String) (outcome : Option Calibration) (cores : ℕ)
      (default_shared_dir : String) (cfg : GenerationConfig) (c : Calibrator) (config : Members)
      (info : TimingInfo)
    → generate_config D shuffle outcome cores default_shared_dir cfg c ≡ ok (config, info)
    → info.duration_s ≤ 2 ^ 53
    → info.bootstrap_end_time_s ≤ 2 ^ 53
    → IsTimed D shuffle cfg config info
unfolding generate_config build
generate_config-times D exact shuffle outcome cores dir cfg c config info h long late =
    let (p, plan, h₁) =
      bind-ok (make_plan D shuffle outcome cores cfg c) (build dir cfg) (config, info) h in
    let (agents, _, h₂) =
      bind-ok (build_agents cfg p) (λ agents. ok (assemble dir cfg p agents, timing_info cfg p))
        (config, info) h₁ in
    let same = ok-injective (assemble dir cfg p agents, timing_info cfg p) (config, info) h₂ in
    subst (λ t. IsTimed D shuffle cfg t.0 t.1) same
      (assemble-IsTimed D exact shuffle dir cfg p agents
        (make_plan-Lasts D shuffle outcome cores cfg c p
          (make_plan-IsPlanned D shuffle outcome cores cfg c p plan))
        (subst (λ t. t.1.duration_s ≤ 2 ^ 53) (sym same) long)
        (subst (λ t. t.1.bootstrap_end_time_s ≤ 2 ^ 53) (sym same) late))

-- ===== src/Scenario/Expand/Phases.antt =====
-- When the upgrades of a group are: `_expand_agent_groups` of scripts/scenario_parser.py.
use zano_shadow_sim.Base.{
  ℕ, ap, get_elem?, ◌∙◌, sym, ◌+◌, suc, ◌*◌, ◌≡◌, ◌++◌, inl, inr, length, refl, Bool, false, Option,
  none, some, List, [], ◌∷◌, map, String, str_eq, arith, range_from, codes, value, starts_with,
  is_infix, ok, ◌>>=◌, Result, Option-cases, bind-ok, ok-injective, All,
}
use zano_shadow_sim.Base.Dict.{Dict, lookup}
use zano_shadow_sim.Float.{Float}
use zano_shadow_sim.Calibrate.{Calibration}
use zano_shadow_sim.Shared.Json.{Json}
use zano_shadow_sim.Scenario.{expand_stagger}
use zano_shadow_sim.Scenario.Staggers.{
  base_seconds, times_or_endless, number_of, parse_stagger_value, expand_values,
}
use zano_shadow_sim.Scenario.Fields.{
  Offsets, expand_field, expand_fields, unstaggered, with_spawn_start, offset_of, advance, is_phase,
  is_stop,
}

-- The times `base + (offset + i) * interval`.
abbrev pub staggered : ℕ → ℕ → ℕ → ℕ → List Json
staggered base interval offset n =
    map number_of (map (λ i. base + (offset + i) * interval) (range_from 0 n))

module _ (D : Float) (randint : ℕ → ℕ → ℕ → ℕ) (outcome : Option Calibration) (cores : ℕ) where
  -- A field of the upgrade's phases, which no start of the users concerns.
  expand_field-phase :
      (is_user : Bool) (start : Option ℕ) (n : ℕ) (staggers : Dict Json) (key base stagger : String)
      (o : Offsets)
      → str_eq key "start_time" ≡ false
      → lookup key staggers ≡ some (Json.number stagger)
      → expand_field D randint outcome cores is_user start n staggers key (Json.number base) o
        ≡ ok (
          staggered (value (codes base)) (value (codes stagger)) (offset_of key o) n,
          advance key n o,
        )
  unfolding expand_field with_spawn_start expand_values parse_stagger_value expand_stagger
      base_seconds times_or_endless
  expand_field-phase is_user none n staggers key base stagger o other h = rw (h, expand_field) refl
  expand_field-phase is_user (some s) n staggers key base stagger o other h =
      rw (h, expand_field, other) refl

  expand_fields-cons :
      (is_user : Bool) (start : Option ℕ) (n : ℕ) (staggers : Dict Json) (key : String) (v : Json)
      (fields : Dict Json) (o : Offsets) (r : Dict (List Json) × Offsets)
      → expand_fields D randint outcome cores is_user start n staggers ((key, v) ∷ fields) o ≡ ok r
      → (values : List Json) × (o' : Offsets) × (later : Dict (List Json)) × (expand_field D randint
            outcome cores is_user start n staggers key v o
          ≡ ok (values, o'))
        × (expand_fields D randint outcome cores is_user start n staggers fields o'
            ≡ ok (later, r.1))
        × (r.0 ≡ (key, values) ∷ later)
  unfolding expand_fields
  expand_fields-cons is_user start n staggers key v fields o r h =
      let (now, e, h₁) =
        bind-ok (expand_field D randint outcome cores is_user start n staggers key v o)
          (λ (now : List Json × Offsets).
            expand_fields D randint outcome cores is_user start n staggers fields now.1
            >>= (λ later. ok ((key, now.0) ∷ later.0, later.1)))
          r h in
      let (later, f, h₂) =
        bind-ok (expand_fields D randint outcome cores is_user start n staggers fields now.1)
          (λ (later : Dict (List Json) × Offsets). ok ((key, now.0) ∷ later.0, later.1)) r h₁ in
      let same = ok-injective ((key, now.0) ∷ later.0, later.1) r h₂ in
      (
        now.0,
        now.1,
        later.0,
        e,
        f ∙ ap (λ (t : Dict (List Json) × Offsets). ok (later.0, t.1)) same,
        ap (λ t. t.0) (sym same),
      )

  -- No stop of a daemon: the fields of such a name leave the daemons' offset alone.
  abbrev pub IsNoStop : String × Json → Type 0
  IsNoStop (key, v) = is_stop "daemon_" key ≡ false

  daemon-advance :
      (key : String) (n : ℕ) (o : Offsets)
      → is_stop "daemon_" key ≡ false
      → (advance key n o).daemon ≡ o.daemon
  unfolding advance
  daemon-advance key n o h = ground arith

  daemon-expand_field :
      (is_user : Bool) (start : Option ℕ) (n : ℕ) (staggers : Dict Json) (key : String) (v : Json)
      (o o' : Offsets) (values : List Json)
      → IsNoStop (key, v)
      → expand_field D randint outcome cores is_user start n staggers key v o ≡ ok (values, o')
      → o'.daemon ≡ o.daemon
  unfolding expand_field
  daemon-expand_field is_user start n staggers key v o o' values h e =
      elim (Option-cases (lookup key staggers)) [
        | inl gone ↦
            ap (λ (t : List Json × Offsets). t.1.daemon)
              (sym (
                ok-injective (unstaggered v n, o) (values, o')
                  (sym (rw (gone, expand_field) refl) ∙ e)))
        | inr (stagger, there) ↦
            let (spread, _, e₁) =
              bind-ok (parse_stagger_value D stagger n)
                (λ spread.
                  expand_values D randint
                    (with_spawn_start D randint outcome cores is_user start key v spread).0
                    (with_spawn_start D randint outcome cores is_user start key v spread).1 n
                    (offset_of key o)
                  >>= (λ values. ok (values, advance key n o)))
                (values, o') (sym (rw (there, expand_field) refl) ∙ e) in
            let base = with_spawn_start D randint outcome cores is_user start key v spread in
            let (found, _, e₂) =
              bind-ok (expand_values D randint base.0 base.1 n (offset_of key o))
                (λ values. ok (values, advance key n o)) (values, o') e₁ in
            ap (λ (t : List Json × Offsets). t.1.daemon)
              (sym (ok-injective (found, advance key n o) (values, o') e₂))
            ∙ daemon-advance key n o h
      ]

  -- After fields of which none stops a daemon, the next field is expanded at the daemons' offset.
  expand_fields-append :
      (is_user : Bool) (start : Option ℕ) (n : ℕ) (staggers : Dict Json) (before after : Dict Json)
      (o : Offsets) (r : Dict (List Json) × Offsets)
      → All IsNoStop before
      → expand_fields D randint outcome cores is_user start n staggers (before ++ after) o ≡ ok r
      → (o' : Offsets) × (later : Dict (List Json)) × (o'.daemon ≡ o.daemon)
        × (expand_fields D randint outcome cores is_user start n staggers after o'
            ≡ ok (later, r.1))
        × ((i : ℕ) → get_elem? r.0 (length before + i) ≡ get_elem? later i)
  expand_fields-append is_user start n staggers [] after o r h e =
      (o, r.0, refl, e, λ i. ap (get_elem? r.0) (omega arith))
  expand_fields-append is_user start n staggers ((key, v) ∷ before) after o r (h, hs) e =
      let (values, o₁, later₁, e₁, f₁, made) =
        expand_fields-cons is_user start n staggers key v (before ++ after) o r e in
      let (o₂, later, same, f, at) =
        expand_fields-append is_user start n staggers before after o₁ (later₁, r.1) hs f₁ in
      (
        o₂,
        later,
        same ∙ daemon-expand_field is_user start n staggers key v o o₁ values h e₁,
        f,
        λ i.
            let place : suc (length before) + i ≡ suc (length before + i) = omega arith in
            ap (λ d. get_elem? d (suc (length before) + i)) made
            ∙ (ap (get_elem? ((key, values) ∷ later₁)) place ∙ at i),
      )

  -- Where the fields of a group have numbers as the stop of the first daemon and, later, as the
  -- start of the second, with numbers as their staggers, no other field before that start is
  -- named as a daemon's stop, and all fields are expanded, the i-th agent stops i intervals
  -- after the base and the offset of earlier groups, but its second daemon starts at that place
  -- moved on by the group's size.
  pub expand_fields-phases :
      (is_user : Bool) (start : Option ℕ) (n : ℕ) (staggers before middle after : Dict Json)
      (stop restart stop_stagger restart_stagger : String) (o : Offsets)
      (r : Dict (List Json) × Offsets)
      → lookup "daemon_0_stop" staggers ≡ some (Json.number stop_stagger)
      → lookup "daemon_1_start" staggers ≡ some (Json.number restart_stagger)
      → All IsNoStop before
      → All IsNoStop middle
      → expand_fields D randint outcome cores is_user start n staggers
          (before
            ++ ("daemon_0_stop", Json.number stop)
              ∷ (middle ++ ("daemon_1_start", Json.number restart) ∷ after))
          o
        ≡ ok r
      → (get_elem? r.0 (length before)
          ≡ some (
            "daemon_0_stop",
            staggered (value (codes stop)) (value (codes stop_stagger)) o.daemon n,
          ))
        × (get_elem? r.0 (length before + suc (length middle))
            ≡ some (
              "daemon_1_start",
              staggered (value (codes restart)) (value (codes restart_stagger)) (o.daemon + n) n,
            ))
  unfolding offset_of advance starts_with is_infix is_phase is_stop
  expand_fields-phases is_user start n staggers before middle after stop restart stop_stagger
        restart_stagger o r h k none_before none_between e =
      let (o₁, later₁, same₁, e₁, at₁) =
        expand_fields-append is_user start n staggers before
          (("daemon_0_stop", Json.number stop)
            ∷ (middle ++ ("daemon_1_start", Json.number restart) ∷ after))
          o r none_before e in
      let (stops, o₂, later₂, s, e₂, made₁) =
        expand_fields-cons is_user start n staggers "daemon_0_stop" (Json.number stop)
          (middle ++ ("daemon_1_start", Json.number restart) ∷ after) o₁ (later₁, r.1) e₁ in
      let (stopped, after_stop) =
        expanded_phase
          (expand_field-phase is_user start n staggers "daemon_0_stop" stop stop_stagger o₁ refl h)
          s in
      let (o₃, later₃, same₃, e₃, at₃) =
        expand_fields-append is_user start n staggers middle
          (("daemon_1_start", Json.number restart) ∷ after) o₂ (later₂, r.1) none_between e₂ in
      let (starts, o₄, later₄, s', e₄, made₂) =
        expand_fields-cons is_user start n staggers "daemon_1_start" (Json.number restart) after o₃
          (later₃, r.1) e₃ in
      let (restarted, _) =
        expanded_phase
          (expand_field-phase is_user start n staggers "daemon_1_start" restart restart_stagger o₃
            refl k)
          s' in
      let offset : o₃.daemon ≡ o.daemon + n =
        same₃ ∙ (ap (λ (t : Offsets). t.daemon) after_stop ∙ ap (λ t. t + n) same₁) in
      let first : length before ≡ length before + 0 = omega arith in
      (
        ap (get_elem? r.0) first
            ∙ (at₁ 0
                ∙ (ap (λ d. get_elem? d 0) made₁
                    ∙ ap (λ vs. some ("daemon_0_stop", vs))
                        (stopped
                          ∙ ap
                              (λ d. staggered (value (codes stop)) (value (codes stop_stagger)) d n)
                              same₁))),
        at₁ (suc (length middle))
            ∙ (ap (λ d. get_elem? d (suc (length middle))) made₁
                ∙ second later₂ later₃ later₄ (length middle) starts _ at₃ made₂ (
                    restarted
                    ∙ ap
                        (λ d. staggered (value (codes restart)) (value (codes restart_stagger)) d n)
                        offset)),
      )
    where
      expanded_phase :
          {x : Result (List Json × Offsets)} {values values' : List Json} {o o' : Offsets}
          → x ≡ ok (values, o)
          → x ≡ ok (values', o')
          → (values' ≡ values) × (o' ≡ o)
      expanded_phase p q =
          let same = ok-injective _ _ (sym q ∙ p) in (ap (λ t. t.0) same, ap (λ t. t.1) same)

      second :
          (later₂ later₃ later₄ : Dict (List Json)) (m : ℕ) (starts values : List Json)
          → ((i : ℕ) → get_elem? later₂ (m + i) ≡ get_elem? later₃ i)
          → later₃ ≡ ("daemon_1_start", starts) ∷ later₄
          → starts ≡ values
          → get_elem? later₂ m ≡ some ("daemon_1_start", values)
      second later₂ later₃ later₄ m starts values at made same =
          let place : m ≡ m + 0 = omega arith in
          ap (get_elem? later₂) place
          ∙ (at 0 ∙ (ap (λ d. get_elem? d 0) made ∙ ap (λ vs. some ("daemon_1_start", vs)) same))

-- ===== src/Validator/Report/Validity.antt =====
-- When a report says that a configuration is valid.
use mathlib.Core.List.{append-eq-nil_iff, append_assoc, cons-ne-nil}
use zano_shadow_sim.Base.{
  Bool, true, false, not, ◌&&◌, ◌||◌, ◌≡◌, refl, sym, ap, ◌∙◌, inl, inr, Option, none, some, List,
  [], ◌∷◌, ◌++◌, String, arith, is_empty, is_some, All, Bool-cases,
}
use zano_shadow_sim.Base.Dict.{Dict, lookup}
use zano_shadow_sim.Float.{Float}
use zano_shadow_sim.Validator.Times.{Time}
use zano_shadow_sim.Validator.Config.{AgentConfig, General, Config, Problem}
use zano_shadow_sim.Validator.Agents.{AgentInfo, is_given, parse_agent}
use zano_shadow_sim.Validator.HardFork.{
  agent_cfgs, any_hf, check_hard_forks, hf_errors, agent_errors, schedule_errors, absent, report_if,
  seeds, is_stock, is_malformed,
}
use zano_shadow_sim.Validator.Report.{
  ValidationReport, nonzero, general_of, start_report, read_stop_time, bootstrap_time,
  read_bootstrap_end_time, count_agent, count_agents, with_ranges, with_upgrade, with_warnings,
  with_settings, with_times, validate_agents, validate,
}

report_if-none :
    (b : Bool) (p : Problem) (rest : List Problem)
    → report_if b p ++ rest ≡ []
    → (b ≡ false) × (rest ≡ [])
unfolding report_if
report_if-none true p rest h = absurd (cons-ne-nil p rest h)
report_if-none false p rest h = (refl, h)

is_empty-nil {ℓ} : {A : Type ℓ} (xs : List A) → is_empty xs ≡ true → xs ≡ []
is_empty-nil [] h = refl
is_empty-nil (x ∷ xs) h = absurd cc

and-right : (a b : Bool) → (a && b) ≡ true → b ≡ true
and-right a b h = ground arith

module _ (D : Float) where
  is_valid-read_stop_time :
      (t : Option (Time D)) (r : ValidationReport D) → (read_stop_time D t r).is_valid ≡ r.is_valid
  unfolding read_stop_time
  is_valid-read_stop_time none r = refl
  is_valid-read_stop_time (some t) r = ground arith

  is_valid-read_bootstrap_end_time :
      (t : Time D) (r : ValidationReport D) → (read_bootstrap_end_time D t r).is_valid ≡ r.is_valid
  unfolding read_bootstrap_end_time
  is_valid-read_bootstrap_end_time t r = ground arith

  is_valid-count_agent :
      (agent_id : String) (info : AgentInfo) (r : ValidationReport D)
      → (count_agent D agent_id info r).is_valid ≡ r.is_valid
  unfolding count_agent nonzero
  is_valid-count_agent agent_id info r = ground arith

  is_valid-count_agents :
      (agents : Dict (Option (AgentConfig D))) (r : ValidationReport D)
      → (count_agents D agents r).is_valid ≡ r.is_valid
  unfolding count_agents
  is_valid-count_agents [] r = refl
  is_valid-count_agents ((k, none) ∷ rest) r = is_valid-count_agents rest r
  is_valid-count_agents ((k, some config) ∷ rest) r =
      let (info, problems) = parse_agent D k config in
      let listed : ValidationReport D = record r {
        errors = r.errors ++ problems;
        agents = r.agents ++ info ∷ [];
      } in
      is_valid-count_agents rest (count_agent D k info listed) ∙ is_valid-count_agent k info listed

  is_valid-with_upgrade : (r : ValidationReport D) → (with_upgrade D r).is_valid ≡ r.is_valid
  unfolding with_upgrade
  is_valid-with_upgrade r = ground arith

  is_valid-validate_agents :
      (config : Config D) (agents : Dict (Option (AgentConfig D))) (r : ValidationReport D)
      → (validate_agents D config agents r).is_valid ≡ (
          r.is_valid
          && is_empty (check_hard_forks D (general_of D config.general) (agent_cfgs D agents)))
  unfolding validate_agents with_ranges with_warnings
  is_valid-validate_agents config agents r =
      let general = general_of D config.general in
      let timed = with_times D general r in
      let counted = count_agents D agents (with_settings D config agents timed) in
      ap (λ b. b && is_empty (check_hard_forks D general (agent_cfgs D agents)))
        (is_valid-with_upgrade (with_ranges D counted)
          ∙ is_valid-count_agents agents (with_settings D config agents timed)
          ∙ is_valid-read_bootstrap_end_time (bootstrap_time D general.bootstrap_end_time)
              (read_stop_time D general.stop_time r)
          ∙ is_valid-read_stop_time general.stop_time r)

  is_valid-start_report :
      (general : Option (General D)) → (start_report D general).is_valid ≡ is_some general
  unfolding start_report
  is_valid-start_report none = refl
  is_valid-start_report (some general) = refl

  -- A configuration with an `agents` section is valid exactly if it has a general section and
  -- the checks on hard forks find no problem: a missing or unreadable time does not count.
  pub is_valid-validate :
      (config : Config D) (agents : Dict (Option (AgentConfig D)))
      → config.agents ≡ some agents
      → (validate D (some config)).is_valid ≡ (
          is_some config.general
          && is_empty (check_hard_forks D (general_of D config.general) (agent_cfgs D agents)))
  unfolding validate
  is_valid-validate config agents e = rw e (
      is_valid-validate_agents config agents (start_report D config.general)
      ∙ ap
          (λ b.
            b && is_empty (check_hard_forks D (general_of D config.general) (agent_cfgs D agents)))
          (is_valid-start_report config.general))

  -- What an agent's section needs beside a hard fork schedule.
  abbrev pub Forks : String × AgentConfig D → Type 0
  Forks (agent_id, c) =
      (is_stock c.daemon ≡ false) × (is_empty c.phases ≡ true) × (is_malformed c.hard_forks ≡ false)

  agent_errors-none :
      (cfgs : Dict (AgentConfig D))
      → agent_errors D cfgs ≡ []
      → schedule_errors D cfgs ≡ []
      → All Forks cfgs
  unfolding agent_errors schedule_errors
  agent_errors-none [] h k = tt
  agent_errors-none ((aid, c) ∷ cfgs) h k =
      let (stock, h2) =
        report_if-none (is_stock c.daemon) (Problem.stock_daemon aid)
          (report_if (not (is_empty c.phases)) (Problem.phases_with_schedule aid)
            ++ agent_errors D cfgs)
          (sym (append_assoc (report_if (is_stock c.daemon) (Problem.stock_daemon aid)) _ _) ∙ h) in
      let (phased, h3) =
        report_if-none (not (is_empty c.phases)) (Problem.phases_with_schedule aid)
          (agent_errors D cfgs) h2 in
      let (malformed, k2) =
        report_if-none (is_malformed c.hard_forks) (Problem.malformed_schedule aid)
          (schedule_errors D cfgs) k in
      ((stock, ground arith, malformed), agent_errors-none cfgs h3 k2)

  absent-none :
      (ss : List String) (cfgs : Dict (AgentConfig D))
      → absent D ss cfgs ≡ []
      → All (λ s. is_some (lookup s cfgs) ≡ true) ss
  unfolding absent
  absent-none [] cfgs h = tt
  absent-none (s ∷ ss) cfgs h = elim (Bool-cases (is_some (lookup s cfgs))) [
    | inl there ↦ (there, absent-none ss cfgs (sym (rw there refl) ∙ h))
    | inr away ↦ absurd (cons-ne-nil s (absent D ss cfgs) (sym (rw away refl) ∙ h))
  ]

  -- A configuration that is valid and has hard forks anywhere is fit for them.
  pub record FitForForks (general : General D) (cfgs : Dict (AgentConfig D)) : Type 0 where
    pub scheduled : is_given general.hard_forks ≡ true
    pub well_formed : is_malformed general.hard_forks ≡ false
    pub one_implementation : general.node_implementations ≡ false
    pub seeded : All (λ s. is_some (lookup s cfgs) ≡ true) seeds
    pub agents_fit : All Forks cfgs

  hf_errors-none :
      (general : General D) (cfgs : Dict (AgentConfig D))
      → hf_errors D general cfgs ≡ []
      → FitForForks general cfgs
  unfolding hf_errors
  hf_errors-none general cfgs h =
      let (default, h1) =
        report_if-none (not (is_given general.hard_forks)) Problem.no_default_schedule _ h in
      let (agents, h2) = append-eq-nil_iff.0 h1 in
      let (missing, h3) =
        report_if-none (not (is_empty (absent D seeds cfgs)))
          (Problem.missing_seeds (absent D seeds cfgs)) _ h2 in
      let (mixed, h4) =
        report_if-none general.node_implementations Problem.mixed_implementations _ h3 in
      let (malformed, h5) =
        report_if-none (is_malformed general.hard_forks)
          (Problem.malformed_schedule "general.daemon_defaults") _ h4 in
      record {
        scheduled = ground arith;
        well_formed = malformed;
        one_implementation = mixed;
        seeded = absent-none seeds cfgs (is_empty-nil (absent D seeds cfgs) (ground arith));
        agents_fit = agent_errors-none cfgs agents h5;
      }

  -- Where a valid configuration has a hard fork schedule or the monerod-hf binary anywhere, its
  -- general section has a schedule and it is well formed, `node_implementations` is not set, all
  -- six seeds are declared, and every agent's section has no other daemon than monerod-hf, no
  -- daemon phases and no malformed schedule.
  pub FitForForks-of_valid :
      (config : Config D) (agents : Dict (Option (AgentConfig D)))
      → config.agents ≡ some agents
      → (validate D (some config)).is_valid ≡ true
      → (is_given (general_of D config.general).hard_forks || any_hf D (agent_cfgs D agents)) ≡ true
      → FitForForks (general_of D config.general) (agent_cfgs D agents)
  unfolding check_hard_forks
  FitForForks-of_valid config agents e valid used =
      let general = general_of D config.general in
      let cfgs = agent_cfgs D agents in
      let none_found =
        is_empty-nil (check_hard_forks D general cfgs) (
          and-right (is_some config.general) _ (sym (is_valid-validate config agents e) ∙ valid)) in
      hf_errors-none general cfgs (sym (rw used refl) ∙ none_found)

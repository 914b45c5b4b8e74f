-- ===== src/Validator/Report/Counts.antt =====
-- The counts of a report against the agents that it lists.
use zano_shadow_sim.Base.{
  ℕ, ◌+◌, ◌≡◌, ap, Option, none, some, List, [], ◌∷◌, ◌++◌, String, arith, length, length-append,
}
use zano_shadow_sim.Base.Dict.{Dict}
use zano_shadow_sim.Float.{Float}
use zano_shadow_sim.Validator.Times.{Time}
use zano_shadow_sim.Validator.Config.{AgentConfig, General, Config}
use zano_shadow_sim.Validator.Agents.{AgentType, AgentInfo, parse_agent}
use zano_shadow_sim.Validator.HardFork.{agent_cfgs}
use zano_shadow_sim.Validator.Report.{
  ValidationReport, nonzero, general_of, start_report, read_stop_time, bootstrap_time,
  read_bootstrap_end_time, count_agent, count_agents, with_ranges, with_upgrade, with_warnings,
  validate_agents, validate,
}

-- One for an agent of the type.
pub is_type : AgentType → AgentType → ℕ
is_type AgentType.miner AgentType.miner = 1
is_type AgentType.user AgentType.user = 1
is_type AgentType.spy AgentType.spy = 1
is_type AgentType.relay AgentType.relay = 1
is_type _ _ = 0

-- The agents of the type.
pub of_type : AgentType → List AgentInfo → ℕ
of_type t [] = 0
of_type t (a ∷ agents) = is_type t a.agent_type + of_type t agents

pub hashrate_of : AgentType → Option ℕ → ℕ
hashrate_of AgentType.miner (some n) = n
hashrate_of _ _ = 0

-- The miners' hash rates together.
pub hashrates : List AgentInfo → ℕ
hashrates [] = 0
hashrates (a ∷ agents) = hashrate_of a.agent_type a.hashrate + hashrates agents

of_type-append :
    (t : AgentType) (xs ys : List AgentInfo) → of_type t (xs ++ ys) ≡ of_type t xs + of_type t ys
unfolding of_type
of_type-append t [] ys = omega arith
of_type-append t (x ∷ xs) ys = omega (arith, of_type-append t xs ys)

hashrates-append : (xs ys : List AgentInfo) → hashrates (xs ++ ys) ≡ hashrates xs + hashrates ys
unfolding hashrates
hashrates-append [] ys = omega arith
hashrates-append (x ∷ xs) ys = omega (arith, hashrates-append xs ys)

one_hashrate : (a : AgentInfo) → hashrates (a ∷ []) ≡ hashrate_of a.agent_type a.hashrate
unfolding hashrates
one_hashrate a = omega arith

-- A count that one more agent has been added to.
joins :
    (kind : AgentType) (info : AgentInfo) (xs : List AgentInfo) {n k : ℕ} {ys : List AgentInfo}
    → n ≡ k + is_type kind info.agent_type
    → ys ≡ xs ++ info ∷ []
    → k ≡ of_type kind xs
    → n ≡ of_type kind ys
unfolding of_type
joins kind info xs e a h = rw a (omega (arith, e, h, of_type-append kind xs (info ∷ [])))

module _ (D : Float) where
  pub record IsCounted (r : ValidationReport D) : Type 0 where
    pub miners : r.miner_count ≡ of_type AgentType.miner r.agents
    pub users : r.user_count ≡ of_type AgentType.user r.agents
    pub spies : r.spy_count ≡ of_type AgentType.spy r.agents
    pub relays : r.relay_count ≡ of_type AgentType.relay r.agents
    pub hashrate : r.total_hashrate ≡ hashrates r.agents

  -- What one more agent adds.
  abbrev Adds : AgentType → Option ℕ → ValidationReport D → ValidationReport D → Type 0
  Adds t h r s =
      (s.miner_count ≡ r.miner_count + is_type AgentType.miner t)
      × (s.user_count ≡ r.user_count + is_type AgentType.user t)
      × (s.spy_count ≡ r.spy_count + is_type AgentType.spy t)
      × (s.relay_count ≡ r.relay_count + is_type AgentType.relay t)
      × (s.total_hashrate ≡ r.total_hashrate + hashrate_of t h)
      × (s.agents ≡ r.agents)

  count_agent-Adds :
      (agent_id : String) (info : AgentInfo) (r : ValidationReport D)
      → Adds info.agent_type info.hashrate r (count_agent D agent_id info r)
  unfolding count_agent is_type hashrate_of nonzero
  count_agent-Adds agent_id info r = ground arith

  count_agents-IsCounted :
      (agents : Dict (Option (AgentConfig D))) (r : ValidationReport D)
      → IsCounted r
      → IsCounted (count_agents D agents r)
        × (length (count_agents D agents r).agents ≡ length r.agents + length (agent_cfgs D agents))
  unfolding count_agents agent_cfgs
  count_agents-IsCounted [] r h = (h, omega arith)
  count_agents-IsCounted ((agent_id, none) ∷ rest) r h = count_agents-IsCounted rest r h
  count_agents-IsCounted ((agent_id, some config) ∷ rest) r h =
      let info : AgentInfo = (parse_agent D agent_id config).0 in
      let before : ValidationReport D = record r {
        errors = r.errors ++ (parse_agent D agent_id config).1;
        agents = r.agents ++ info ∷ [];
      } in
      let after : ValidationReport D = count_agent D agent_id info before in
      let (m, u, s, l, t, a) = count_agent-Adds agent_id info before in
      let (counted, n) = count_agents-IsCounted rest after (record {
        miners = joins AgentType.miner info r.agents m a h.miners;
        users = joins AgentType.user info r.agents u a h.users;
        spies = joins AgentType.spy info r.agents s a h.spies;
        relays = joins AgentType.relay info r.agents l a h.relays;
        hashrate = rw a (
            omega (arith, t, h.hashrate, hashrates-append r.agents (info ∷ []), one_hashrate info));
      }) in
      (counted, omega (arith, n, ap length a, length-append r.agents (info ∷ [])))

  -- Nothing is listed, and nothing counted.
  IsFresh : ValidationReport D → Type 0
  IsFresh r = IsCounted r × (length r.agents ≡ 0)

  start_report-IsFresh : (general : Option (General D)) → IsFresh (start_report D general)
  unfolding start_report IsFresh of_type hashrates
  start_report-IsFresh none = ground arith
  start_report-IsFresh (some general) = ground arith

  read_stop_time-IsFresh :
      (t : Option (Time D)) (r : ValidationReport D) → IsFresh r → IsFresh (read_stop_time D t r)
  unfolding read_stop_time IsFresh
  read_stop_time-IsFresh none r (h, n) = ground arith
  read_stop_time-IsFresh (some t) r (h, n) = ground arith

  read_bootstrap_end_time-IsFresh :
      (t : Time D) (r : ValidationReport D) → IsFresh r → IsFresh (read_bootstrap_end_time D t r)
  unfolding read_bootstrap_end_time IsFresh
  read_bootstrap_end_time-IsFresh t r (h, n) = ground arith

  with_upgrade-IsCounted : (r : ValidationReport D) → IsCounted r → IsCounted (with_upgrade D r)
  unfolding with_upgrade
  with_upgrade-IsCounted r h = ground arith

  length-with_upgrade :
      (r : ValidationReport D) → length (with_upgrade D r).agents ≡ length r.agents
  unfolding with_upgrade
  length-with_upgrade r = ground arith

  validate_agents-IsCounted :
      (config : Config D) (agents : Dict (Option (AgentConfig D))) (r : ValidationReport D)
      → IsFresh r
      → IsCounted (validate_agents D config agents r)
        × (length (validate_agents D config agents r).agents ≡ length (agent_cfgs D agents))
  unfolding validate_agents with_ranges with_warnings IsFresh
  validate_agents-IsCounted config agents r fresh =
      let general : General D = general_of D config.general in
      let (h, n) =
        read_bootstrap_end_time-IsFresh (bootstrap_time D general.bootstrap_end_time) _
          (read_stop_time-IsFresh general.stop_time r fresh) in
      let (counted, listed) = count_agents-IsCounted agents _ (record {
        miners = h.miners;
        users = h.users;
        spies = h.spies;
        relays = h.relays;
        hashrate = h.hashrate;
      }) in
      let done = with_upgrade-IsCounted _ (record {
        miners = counted.miners;
        users = counted.users;
        spies = counted.spies;
        relays = counted.relays;
        hashrate = counted.hashrate;
      }) in
      (
        record {
          miners = done.miners;
          users = done.users;
          spies = done.spies;
          relays = done.relays;
          hashrate = done.hashrate;
        },
        omega (arith, listed, n, length-with_upgrade (with_ranges D (count_agents D agents _))),
      )

  -- For a configuration with an `agents` section the report lists one agent for each section
  -- that is a dict, its counts of miners, users, spies and relays are those of the listed
  -- agents' types, and its total hash rate is that of the listed miners.
  pub validate-IsCounted :
      (config : Config D) (agents : Dict (Option (AgentConfig D)))
      → config.agents ≡ some agents
      → IsCounted (validate D (some config))
        × (length (validate D (some config)).agents ≡ length (agent_cfgs D agents))
  unfolding validate
  validate-IsCounted config agents e =
      rw e (validate_agents-IsCounted config agents _ (start_report-IsFresh config.general))

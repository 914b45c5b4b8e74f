-- ===== src/Lib.antt =====
-- A verification library of the Monero network simulator's own Python logic: how funds are handed
-- out in a simulated network, and when the simulated agents start.
--
-- The miner distributor (agents/miner_distributor/) is an agent whose `run_iteration` is called
-- again and again. It discovers the miners in two registry files, waits until a miner has an
-- unlocked balance, funds every eligible agent once in batches and with failover between miners,
-- and then pays the funded agents in turn. Its state is split between its attributes, a status file
-- that lets it resume, and the wallets, which answer over RPC.
-- - Distributor: `Md`, the attributes of MinerDistributorAgent together with its status file, and
--   `Env`, all that stands outside (clock, random generator, registry files, wallet RPC,
--   transactions.json) as functions on a `World` that every call may change. A wallet may answer
--   anything at any time, so a statement over all `Env` is one over all replies and failures.
-- - Distributor.Selection: agents/miner_distributor/selection.py and `_select_miner_excluding`.
-- - Distributor.Send: `_get_recipient_address`, `_validate_transaction_params` and
--   `_send_batch_transaction` of agents/miner_distributor/agent.py, the helpers of
--   agents/shared_utils.py and `retry_with_backoff` of agents/base_agent.py.
-- - Distributor.Funding: `_record_recipient_failure`, `_record_recipient_success`,
--   `_batch_recipients`, `_retry_failed_batch`, `_process_funding_batches`,
--   `_write_funding_status` and `_finalize_funding_status`. What several calls do to the sets of
--   recipients is written once (`settle_batch`, `fail_batch`) and called where the source repeats it.
-- - Distributor.Run: discovery, the maturity gate, `_load_funding_progress` and
--   `_collect_eligible_recipients`; Distributor.Run.Cycle: `_perform_initial_funding`,
--   `_fund_miners_first`, `_run_funding_cycle` and `run_iteration`.
--
-- The start times (scripts/config_generation/timeline.py, scripts/timing_constants.py) are in
-- Timing: durations as text (Timing.Duration), and batches of users, the bootstrap window and the
-- order of upgrades (Timing.Batches). scripts/calibrate.py is in Calibrate: the caps, floors,
-- intervals and staggers that follow from a calibration record, and when a calibration is run.
--
-- PublicNodes is agents/public_node_discovery.py: the cached registry of public nodes and the choice
-- of a daemon. Scenario is the part of scripts/scenario_parser.py on ranges of agent ids, batched
-- start times and staggers; its `while` loop has one round of fuel more than there are agents.
-- Monitor is what agents/simulation_monitor/agent.py counts (`_record_block_mined`,
-- `_extract_transactions_from_blocks`) and agents/simulation_monitor/alerts.py, without its texts.
--
-- The agents share JSON files. Shared is the part of agents/base_agent.py on them:
-- `write_shared_state` (with its lock, which every call of it takes), `append_shared_list`,
-- `_register_self`, `read_shared_state` and `read_shared_list`. Shared.Jobs is what a call computes
-- from the file's text, Shared.Registration how a registration changes the registry, and
-- Shared.Steps the calls of any number of agents on one file, interleaved at each access, with
-- OSErrors at each read, write and rename. Python's json module is the record `Format`.
--
-- Validator is scripts/ai_config/validator.py: time values, `_parse_agent`, `_analyze_upgrade` and
-- `validate`, with its messages as constructors (Validator.Config.Problem). Whole numbers that can be
-- negative are Validator.Integers.
--
-- User is a regular user's iterations (agents/regular_user.py, `_run_user_iteration` and what it
-- calls). A `Turn` has what an iteration meets from outside, the wallet's answers included, so a
-- list of turns is any history of the user. User.Recipients reads the shared files; ids are texts.
--
-- Dns is the resolver of agents/dns_server.py, which reads the registry that the agents enter
-- themselves in; Dns.Registered is about both. `int` is modelled on digits, and dnslib's records are
-- the constructors `Answer` and `DnsReply`.
--
-- Scenario.Defaults, Scenario.Auto and Scenario.Resolve are `apply_type_defaults`,
-- `_resolve_auto_agent_values`, and `_count_total_nodes`, `_resolve_timing`,
-- `_resolve_general_section` and `format_time` of scripts/scenario_parser.py. They use the durations
-- of Timing and the intervals of Calibrate; a calibration's outcome and the number of cores are
-- arguments. YAML values are those of Shared.Json, or settings where only times are looked at.
--
-- Monitor.Health is `_analyze_network_health` of agents/simulation_monitor/agent.py, without the
-- averages and the variance.
--
-- Discovery is `find_agents_by_type` and `find_agents_by_attribute` of agents/agent_discovery.py on a
-- registry that is loaded, the attribute's value being a string.
--
-- Generator is `generate_config` of scripts/generate_config.py with scripts/config_generation/
-- agent_emit.py (Generator.Agents) and general_emit.py (Generator.Sections). Generator.Upgrade
-- has the plan of an upgrade, Generator.Entries the agents, and Generator.Build computes a `Plan`,
-- the agents from it, and the sections; the values are those of Shared.Json, and floats of
-- the configuration are the texts that they are printed as. The users' schedule, the upgrade's and
-- durations are those of Timing, intervals and activity those of Calibrate.
--
-- Yaml is scripts/config_generation/yaml_emit.py on the values of Shared.Json; `yaml.safe_load` and
-- the `str` of lists and of None are arguments.
--
-- Scenario.Staggers, Scenario.Fields and Scenario.Expand are `parse_stagger_value`, `expand_stagger`,
-- `_expand_agent_groups` and `_add_singleton_agents` of scripts/scenario_parser.py on the values of
-- Shared.Json, whose numbers are whole; a range that runs backwards has no agents.
--
-- Floats are a parameter (Float): a type with the operations the source uses. Only the round trips of
-- durations need more of it, that whole numbers up to 2 ^ 53 are exact; Float.Ratio shows with exact
-- fractions that this can hold. Python's ints are natural numbers, except for the one difference
-- in the validator that can be negative (Validator.Integers): elsewhere the source subtracts only
-- where the result is not negative or is capped. Times are whole seconds. Sets and dicts are lists
-- in the order of insertion.
--
-- The loops over lists are structural, and the others run on fuel: `scan` on the text's length, since
-- a token is not empty; `slices` on the number of recipients, since a batch is not empty;
-- `calculate_batch_sizes` on two rounds more than there are users, since from the second round on a
-- round places a user; `pairs` of Validator.HardFork on the text's length, since a pair is not empty.
-- The calls of `_perform_initial_funding` by way of `_fund_miners_first` are bounded by nothing in
-- the source, and their fuel is an argument.
--
-- Not modelled: log lines, the start of processes and RPC servers, the wallet RPC client itself,
-- the autonomous miner, the set-up of the agents, the rest of agents/agent_discovery.py, the
-- benchmark of scripts/calibrate.py, the command lines, the monitor's collection over RPC, its log
-- reading and its reports, the analysis scripts, and the assistant that writes scenarios.
-- The distributor's files are always written: an OSError of `write_shared_state`, which is raised
-- again and ends the iteration, is not modelled there, nor are the amounts of recorded transactions.
-- The generator's number of users is natural: the ValueError on a negative one is left out, as is
-- the warning that `_print_scale_guardrail` prints.
mod Base
mod Float
pub mod Timing
pub mod Calibrate
pub mod Distributor
pub mod PublicNodes
pub mod Scenario
pub mod Monitor
pub mod Validator
pub mod Discovery
pub mod Generator
pub mod Yaml
pub mod Dns
pub mod User
pub mod Shared
pub mod Tests

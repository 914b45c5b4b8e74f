-- ===== src/Scenario/Fields.antt =====
-- The fields of a group in `_expand_agent_groups` of scripts/scenario_parser.py.
use mathlib.Core.Option
use zano_shadow_sim.Base.{
  ℕ, ◌+◌, Bool, false, not, ◌&&◌, ◌||◌, Option, none, some, List, [], ◌∷◌, ◌++◌, String, str_eq,
  ltb, ◌==◌, if◌then◌else◌, is_some, length, codes, decimal, value, starts_with, is_infix, text_of,
  Result, ok, err, ◌>>=◌,
}
use zano_shadow_sim.Base.Dict.{Dict, lookup, insert}
use zano_shadow_sim.Float.{Float}
use zano_shadow_sim.Timing.{default_upgrade_stagger_s}
use zano_shadow_sim.Timing.Duration.{parse_duration}
use zano_shadow_sim.Calibrate.{Calibration, Calibrator, compute_stagger}
use zano_shadow_sim.Shared.Json.{Json, Members, get, to_list}
use zano_shadow_sim.Scenario.{IdRange, batched, linear}
use zano_shadow_sim.Scenario.Staggers.{
  Spread, computed, replicate_value, parse_stagger_value, expand_values,
}

-- A group of agents: `range` is its pattern, as parsed.
pub record AgentGroup : Type 0 where
  pub range : IdRange
  pub count : ℕ
  pub properties : Members

-- `key.endswith('_stagger')`, with the key without it.
unfoldable pub without_suffix : List ℕ → List ℕ → Option (List ℕ)
without_suffix suffix [] = none
without_suffix suffix (c ∷ s) =
    let later = Option.map (λ t. c ∷ t) (without_suffix suffix s) in
    if length (c ∷ s) == length suffix && starts_with (c ∷ s) suffix then some [] else later

unfoldable pub stagger_key : String → Option String
unfolding without_suffix text_of
stagger_key key = Option.map text_of (without_suffix (codes "_stagger") (codes key))

-- The staggers, and the fields that have none.
unfoldable pub stagger_fields : Members → Dict Json
unfolding stagger_key insert
stagger_fields Members.empty = []
stagger_fields (Members.member key v props) =
    let rest = stagger_fields props in
    elim (stagger_key key) [ none ↦ rest | some base ↦ (base, v) ∷ rest ]

unfoldable pub base_fields : Members → Dict Json
unfolding stagger_key
base_fields Members.empty = []
base_fields (Members.member key v props) =
    let rest = base_fields props in
    elim (stagger_key key) [ none ↦ (key, v) ∷ rest | some base ↦ rest ]

-- `name in str(props.get('script', ''))`, where the script is a text
unfoldable pub runs_script : String → Members → Bool
unfolding get
runs_script name props = elim (get "script" props) [
  | some (Json.text script) ↦ is_infix (codes name) (codes script)
  | some _ ↦ false
  | none ↦ false
]

unfoldable pub has : String → Dict Json → Bool
unfolding lookup
has key fields = is_some (lookup key fields)

unfoldable pub is_daemon_only : Dict Json → Bool
unfolding has
is_daemon_only fields =
    (has "daemon" fields || has "daemon_0" fields)
    && (not (has "wallet" fields) && not (has "script" fields))

-- The stagger, where the field is there and has none.
unfoldable pub default_stagger : String → Json → Dict Json → Dict Json → Dict Json
unfolding has insert
default_stagger key stagger base staggers =
    if has key base && not (has key staggers) then insert key stagger staggers else staggers

-- `f'{n}s'`
unfoldable pub seconds_text : ℕ → Json
unfolding text_of
seconds_text n = Json.text (text_of (decimal n ++ b's' ∷ []))

unfoldable pub default_start_stagger : Bool → Bool → Bool → Dict Json → Dict Json → Dict Json
unfolding default_stagger
default_start_stagger is_user is_miner daemon_only base staggers =
    if is_user
    then default_stagger "start_time" (Json.text "auto") base staggers
    else if is_miner
    then default_stagger "start_time" (Json.text "1s") base staggers
    else if daemon_only
    then default_stagger "start_time" (Json.text "5s") base staggers
    else staggers

unfoldable pub is_auto_text : Option Json → Bool
is_auto_text (some (Json.text s)) = str_eq s "auto"
is_auto_text _ = false

-- The fields' values agent by agent, and how far the upgrades of daemons and wallets have come.
pub record Offsets : Type 0 where
  pub daemon : ℕ
  pub wallet : ℕ

-- `key.startswith(prefix) and ('stop' in key or ('start' in key and '0' not in key))`
unfoldable pub is_phase : String → String → Bool
is_phase name key =
    starts_with (codes key) (codes name)
    && (is_infix (codes "stop") (codes key)
        || (is_infix (codes "start") (codes key) && not (is_infix (codes "0") (codes key))))

unfoldable pub offset_of : String → Offsets → ℕ
unfolding is_phase
offset_of key o =
    if is_phase "daemon_" key then o.daemon else if is_phase "wallet_" key then o.wallet else 0

unfoldable pub is_stop : String → String → Bool
is_stop name key = starts_with (codes key) (codes name) && is_infix (codes "stop") (codes key)

unfoldable pub advance : String → ℕ → Offsets → Offsets
unfolding is_stop
advance key count o =
    if is_stop "daemon_" key
    then record o { daemon = o.daemon + count }
    else if is_stop "wallet_" key
    then record o { wallet = o.wallet + count }
    else o

-- A list with a value for each agent, or the same value for all.
unfoldable pub unstaggered : Json → ℕ → List Json
unfolding replicate_value to_list
unstaggered (Json.array vs) count =
    if length (to_list vs) == count then to_list vs else replicate_value count (Json.array vs)
unstaggered v count = replicate_value count v

module _ (D : Float) (randint : ℕ → ℕ → ℕ → ℕ) (outcome : Option Calibration) (cores : ℕ) where
  -- `base_fields.get('transaction_interval', 60)` in seconds
  unfoldable pub tx_interval_of : Option Json → Result ℕ
  tx_interval_of none = ok 60
  tx_interval_of (some (Json.text s)) = parse_duration D (codes s)
  tx_interval_of (some (Json.number n)) = ok (value (codes n))
  tx_interval_of (some _) = err "TypeError"

  unfoldable pub default_activity_stagger :
      ℕ → ℕ → Dict Json → Dict Json → Calibrator → Result (Dict Json × Calibrator)
  unfolding tx_interval_of is_auto_text has lookup insert seconds_text
  default_activity_stagger count total_nodes base staggers c =
      let staggered = do
        interval ← tx_interval_of (lookup "transaction_interval" base)
        let (stagger_s, c') = compute_stagger D outcome count interval (some total_nodes) cores c in
            ok (insert "activity_start_time" (seconds_text stagger_s) staggers, c')
      in if has "activity_start_time" base
          && (not (has "activity_start_time" staggers)
              && not (is_auto_text (lookup "activity_start_time" base)))
        then staggered
        else ok (staggers, c)

  -- The staggers of a group, the defaults included.
  unfoldable pub with_defaults :
      AgentGroup → ℕ → Dict Json → Dict Json → Calibrator → Result (Dict Json × Calibrator)
  unfolding default_start_stagger default_activity_stagger default_stagger runs_script
      is_daemon_only seconds_text
  with_defaults g total_nodes base staggers c =
      let is_user = runs_script "regular_user" g.properties in
      let is_miner = runs_script "autonomous_miner" g.properties in
      let started = default_start_stagger is_user is_miner (is_daemon_only base) base staggers in
      let activity = default_activity_stagger g.count total_nodes base started c in
      let upgrade = seconds_text default_upgrade_stagger_s in
      let defaulted = do
        s ← (if is_user then activity else ok (started, c))
        ok (
          default_stagger "wallet_0_stop" upgrade base
              (default_stagger "daemon_0_stop" upgrade base s.0),
          s.1,
        )
      in if ltb 1 g.count then defaulted else ok (staggers, c)

  -- The start that the scenario asks for its users.
  unfoldable pub override_start : ℕ → Json → Spread D.F → Json × Spread D.F
  unfolding seconds_text
  override_start start v (computed (batched initial_delay interval size growth max_size intra)) =
      (v, computed (batched start interval size growth max_size intra))
  override_start start v (computed (linear interval)) =
      (seconds_text start, computed (linear interval))
  override_start start v spread = (v, spread)

  unfoldable pub with_spawn_start : Bool → Option ℕ → String → Json → Spread D.F → Json × Spread D.F
  unfolding override_start
  with_spawn_start is_user none key v spread = (v, spread)
  with_spawn_start is_user (some start) key v spread =
      if str_eq key "start_time" && is_user then override_start start v spread else (v, spread)

  -- The values of a field, and the offsets after it.
  unfoldable pub expand_field :
      Bool → Option ℕ → ℕ → Dict Json → String → Json → Offsets → Result (List Json × Offsets)
  unfolding lookup with_spawn_start offset_of advance unstaggered expand_values parse_stagger_value
  expand_field is_user start count staggers key v o = elim (lookup key staggers) [
    | none ↦ ok (unstaggered v count, o)
    | some stagger ↦ do
      spread ← parse_stagger_value D stagger count
      let (base, spread') = with_spawn_start is_user start key v spread in
          do
            values ← expand_values D randint base spread' count (offset_of key o)
            ok (values, advance key count o)
  ]

  unfoldable pub expand_fields :
      Bool → Option ℕ → ℕ → Dict Json → Dict Json → Offsets → Result (Dict (List Json) × Offsets)
  unfolding expand_field
  expand_fields is_user start count staggers [] o = ok ([], o)
  expand_fields is_user start count staggers ((key, v) ∷ fields) o = do
    now ← expand_field is_user start count staggers key v o
    later ← expand_fields is_user start count staggers fields now.1
    ok ((key, now.0) ∷ later.0, later.1)

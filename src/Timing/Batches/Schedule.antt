-- ===== src/Timing/Batches/Schedule.antt =====
-- Who starts when, and who is upgraded when: scripts/config_generation/timeline.py.
use mathlib.Core.Option
use zano_shadow_sim.Base.{
  ℕ, zero, suc, ◌+◌, ◌*◌, ◌<◌, ◌≡◌, refl, ap, ◌∙◌, Option, some, none, List, [], ◌∷◌, arith, sum,
  false, range_from, range_from-add, map, String, eq_iff, contains, contains-cons, get_elem?, sym,
}
use mathlib.Core.List.{map-append}
use zano_shadow_sim.Base.Dict.{Dict, lookup, lookup-insert}
use zano_shadow_sim.Float.{Float}
use zano_shadow_sim.Timing.{default_daemon_restart_gap_s}
use zano_shadow_sim.Timing.Batches.{
  batch_entries, schedule_loop, calculate_batch_schedule, schedule_from, ordered_agents,
  calculate_upgrade_schedule, UpgradeOrder,
}
use zano_shadow_sim.Timing.Batches.Sizes.{Places, calculate_batch_sizes-Places}

abbrev pub users : List (ℕ × ℕ) → List ℕ
users = map (λ (user, _). user)

users-batch_entries :
    (user start stagger i n : ℕ) → users (batch_entries user start stagger i n) ≡ range_from user n
unfolding batch_entries
users-batch_entries user start stagger i zero = refl
users-batch_entries user start stagger i (suc n) =
    ap (λ t. user ∷ t) (users-batch_entries (user + 1) start stagger (i + 1) n)

users-schedule_loop :
    (delay interval stagger batch user : ℕ) (sizes : List ℕ)
    → users (schedule_loop delay interval stagger batch user sizes) ≡ range_from user (sum sizes)
unfolding schedule_loop
users-schedule_loop delay interval stagger batch user [] = refl
users-schedule_loop delay interval stagger batch user (size ∷ sizes) =
    rw
      (
        map-append,
        users-batch_entries,
        users-schedule_loop delay interval stagger (batch + 1) (user + size) sizes,
      )
      (sym (range_from-add user size (sum sizes)))

-- A schedule that lists the users from 0 to `n` in order, each once.
abbrev pub ListsAll : ℕ → Option (List (ℕ × ℕ)) → Type 0
ListsAll n none = ⊥
ListsAll n (some schedule) = users schedule ≡ range_from 0 n

ListsAll-map :
    (D : Float) (growth : D.F) (n max_size delay interval stagger : ℕ) (o : Option (List ℕ))
    → Places D growth n max_size o
    → ListsAll n (Option.map (schedule_loop delay interval stagger 0 0) o)
ListsAll-map D growth n max_size delay interval stagger none p = p
ListsAll-map D growth n max_size delay interval stagger (some sizes) p =
    users-schedule_loop delay interval stagger 0 0 sizes ∙ ap (range_from 0) p.0

-- When `max_size` is not 0, the schedule is found and has each user once and in order.
pub calculate_batch_schedule-ListsAll :
    (D : Float) (n delay interval initial : ℕ) (growth : D.F) (max_size stagger : ℕ)
    → 0 < max_size
    → ListsAll n (calculate_batch_schedule D n delay interval initial growth max_size stagger)
unfolding calculate_batch_schedule
calculate_batch_schedule-ListsAll D n delay interval initial growth max_size stagger h =
    ListsAll-map D growth n max_size delay interval stagger _
      (calculate_batch_sizes-Places D growth n initial max_size h)

-- No agent is listed twice.
abbrev pub IsDistinct : List String → Type 0
IsDistinct [] = Unit
IsDistinct (a ∷ agents) = (contains a agents ≡ false) × IsDistinct agents

schedule_from-other :
    (start stagger i : ℕ) (agents : List String) (d : Dict (ℕ × ℕ)) (a : String)
    → contains a agents ≡ false
    → lookup a (schedule_from start stagger i agents d) ≡ lookup a d
unfolding schedule_from
schedule_from-other start stagger i [] d a h = refl
schedule_from-other start stagger i (b ∷ agents) d a h =
    schedule_from-other start stagger (i + 1) agents _ a (ground (arith, contains-cons a b agents))
    ∙ rw lookup-insert (ground (arith, contains-cons a b agents))

schedule_from-at :
    (start stagger i j : ℕ) (agents : List String) (d : Dict (ℕ × ℕ)) (a : String)
    → IsDistinct agents
    → get_elem? agents j ≡ some a
    → lookup a (schedule_from start stagger i agents d)
      ≡ some (start + (i + j) * stagger, start + (i + j) * stagger + default_daemon_restart_gap_s)
unfolding schedule_from
schedule_from-at start stagger i j [] d a u h = cc
schedule_from-at start stagger i zero (b ∷ agents) d a (fresh, u) h =
    schedule_from-other start stagger (i + 1) agents _ a (ground arith)
    ∙ rw lookup-insert (ground (arith, eq_iff a b))
schedule_from-at start stagger i (suc j) (b ∷ agents) d a (_, u) h =
    schedule_from-at start stagger (i + 1) j agents _ a u h ∙ ground arith

-- When the ordered agents are distinct, the agent at place `j` of the upgrade order stops its
-- first phase `j` staggers after the start and begins its second phase one restart gap later.
pub lookup-calculate_upgrade_schedule :
    (shuffle : ℕ → List String → List String) (agents : List String) (start stagger : ℕ)
    (order : UpgradeOrder) (miner_ids : List String) (seed j : ℕ) (a : String)
    → IsDistinct (ordered_agents shuffle order seed agents miner_ids)
    → get_elem? (ordered_agents shuffle order seed agents miner_ids) j ≡ some a
    → lookup a (calculate_upgrade_schedule shuffle agents start stagger order miner_ids seed)
      ≡ some (start + j * stagger, start + j * stagger + default_daemon_restart_gap_s)
unfolding calculate_upgrade_schedule
lookup-calculate_upgrade_schedule shuffle agents start stagger order miner_ids seed j a u h =
    schedule_from-at start stagger 0 j _ [] a u h ∙ ground arith

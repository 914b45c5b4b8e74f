-- ===== src/Tests/Registry.antt =====
-- Examples of the laws of public nodes and of scenario files.
use zano_shadow_sim.Base.{
  ℕ, ◌<◌, ◌≡◌, refl, false, none, some, [], ◌∷◌, ◌++◌, arith, ok, codes, all_digits, is_digit,
  value,
}
use zano_shadow_sim.Float.Ratio.{ratios}
use zano_shadow_sim.PublicNodes.{Node, Discovery, round_robin, get_public_nodes, select_daemon}
use zano_shadow_sim.PublicNodes.Laws.{IsSelected, select_daemon-IsSelected}
use zano_shadow_sim.Scenario.{parse_range_pattern, grown, calculate_batched_schedule}
use zano_shadow_sim.Scenario.Laws.{HasLength, calculate_batched_schedule-HasLength}
use zano_shadow_sim.Scenario.Laws.Ids.{is_plain_prefix, in_braces, parse_range_pattern_lem}

abbrev relay : Node
relay = record {
  agent_id = "relay-1";
  status = "available";
  ip_addr = "10.0.0.5";
  rpc_port = 18081;
  registered_at = 7;
}

abbrev spare : Node
spare = record relay { agent_id = "relay-2"; status = "offline" }

abbrev empty_cache : Discovery
empty_cache = record { cache = none; cache_time = 0; cache_ttl = 5; round_robin_index = 3 }

select_daemon-IsSelected_example :
    IsSelected
      ("relay-3" ∷ [])
      (get_public_nodes false 100 (ok (some (relay ∷ spare ∷ []))) empty_cache).0
      (select_daemon
        (λ n. 0)
        round_robin
        ("relay-3" ∷ [])
        100
        (ok (some (relay ∷ spare ∷ [])))
        empty_cache).0
select_daemon-IsSelected_example =
    select_daemon-IsSelected (λ n. 0) round_robin ("relay-3" ∷ []) 100
      (ok (some (relay ∷ spare ∷ []))) empty_cache (λ n h. h) tt

doubles : (n : ℕ) → 0 < n → 0 < grown ratios (ratios.of_ℕ 2) n
unfolding grown ratios
doubles n h = omega arith

calculate_batched_schedule-HasLength_example :
    HasLength ratios
      (ratios.of_ℕ 2)
      40
      (calculate_batched_schedule ratios 40 1200 600 5 (ratios.of_ℕ 2) 20 5)
calculate_batched_schedule-HasLength_example =
    calculate_batched_schedule-HasLength ratios (ratios.of_ℕ 2) 1200 600 20 5 doubles 40 5
      (omega arith) (omega arith)

parse_range_pattern_lem_example :
    parse_range_pattern (codes "miner-" ++ b'{' ∷ in_braces (codes "001") (codes "005"))
    ≡ some (record {
      id_prefix = codes "miner-";
      width = 3;
      start_index = value (codes "001");
      end_index = value (codes "005");
    })
unfolding is_plain_prefix all_digits is_digit
parse_range_pattern_lem_example =
    parse_range_pattern_lem (codes "miner-") b'0' (codes "01") (codes "005") refl refl refl refl
      refl

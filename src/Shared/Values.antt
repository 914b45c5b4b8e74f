-- ===== src/Shared/Values.antt =====
-- How agents read JSON values: what Python takes for true, and `parse_bool` of agents/base_agent.py.
use zano_shadow_sim.Base.{
  ℕ, Bool, true, false, not, ◌&&◌, ◌||◌, none, some, List, [], ◌∷◌, String, str_eq, leb, ◌==◌,
  if◌then◌else◌, codes, lower, text_eq,
}
use zano_shadow_sim.Shared.Json.{Json, Jsons, Members, get}

-- A number's literal has a digit other than 0 before its exponent.
unfoldable pub is_nonzero : List ℕ → Bool
is_nonzero [] = false
is_nonzero (c ∷ s) =
    let rest = is_nonzero s in
    if c == b'e' || c == b'E' then false else (leb b'1' c && leb c b'9') || rest

-- `bool(value)`
unfoldable pub truthy : Json → Bool
unfolding is_nonzero
truthy Json.null = false
truthy (Json.boolean b) = b
truthy (Json.number n) = is_nonzero (codes n)
truthy (Json.text s) = not (str_eq s "")
truthy (Json.array Jsons.nil) = false
truthy (Json.array _) = true
truthy (Json.object Members.empty) = false
truthy (Json.object _) = true

unfoldable pub parse_flag : Json → Bool
unfolding is_nonzero
parse_flag (Json.boolean b) = b
parse_flag (Json.number n) = is_nonzero (codes n)
parse_flag (Json.text s) =
    let word = lower (codes s) in
    text_eq word (codes "true")
    || text_eq word (codes "1")
    || text_eq word (codes "yes")
    || text_eq word (codes "on")
parse_flag _ = false

-- `parse_bool(attributes.get(key, ""))`
unfoldable pub flag_in : String → Members → Bool
unfolding parse_flag
flag_in key ms = elim (get key ms) [ none ↦ false | some v ↦ parse_flag v ]

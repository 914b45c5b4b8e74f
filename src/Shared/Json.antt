-- ===== src/Shared/Json.antt =====
-- JSON values, with the operations of Python's lists and dicts on them that agents/base_agent.py uses.
use zano_shadow_sim.Base.{
  Bool, ◌≡◌, refl, ap, Option, none, some, List, [], ◌∷◌, ◌++◌, String, str_eq, if◌then◌else◌,
  arith, eq_iff,
}

-- A number is its literal.
mutual
  pub data Json : Type 0 where
    null : Json
    boolean : Bool → Json
    number : String → Json
    text : String → Json
    array : Jsons → Json
    object : Members → Json

  pub data Jsons : Type 0 where
    nil : Jsons
    cons : Json → Jsons → Jsons

  pub data Members : Type 0 where
    empty : Members
    member : String → Json → Members → Members

unfoldable pub to_list : Jsons → List Json
to_list nil = []
to_list (cons v vs) = v ∷ to_list vs

-- `data.append(item)`
unfoldable pub snoc : Jsons → Json → Jsons
snoc nil item = cons item nil
snoc (cons v vs) item = cons v (snoc vs item)

-- `d.get(key)`, with no value where there is none
unfoldable pub get : String → Members → Option Json
get key empty = none
get key (member k v ms) = if str_eq key k then some v else get key ms

-- `d[key] = value`
unfoldable pub put : String → Json → Members → Members
put key value empty = member key value empty
put key value (member k v ms) =
    if str_eq key k then member k value ms else member k v (put key value ms)

pub to_list-snoc : (vs : Jsons) (item : Json) → to_list (snoc vs item) ≡ to_list vs ++ item ∷ []
unfolding to_list snoc
to_list-snoc nil item = refl
to_list-snoc (cons v vs) item = ap (λ t. v ∷ t) (to_list-snoc vs item)

pub get-put :
    (j k : String) (v : Json) (ms : Members)
    → get j (put k v ms) ≡ (if str_eq j k then some v else get j ms)
unfolding get put
get-put j k v empty = refl
get-put j k v (member i w ms) = ground (arith, eq_iff j k, eq_iff j i, eq_iff k i, get-put j k v ms)

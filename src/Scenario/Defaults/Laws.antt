-- ===== src/Scenario/Defaults/Laws.antt =====
-- What an agent's properties are after the defaults of its type.
use mathlib.Core.Path.{subst}
use zano_shadow_sim.Base.{
  Bool, true, false, ◌≡◌, refl, sym, ap, ◌∙◌, inl, inr, Option, none, some, String, str_eq, eq_iff,
  arith, ok, if◌then◌else◌, Bool-cases,
}
use zano_shadow_sim.Shared.Json.{Json, Members, get, put, get-put}
use zano_shadow_sim.Scenario.Defaults.{
  remove, update_with, merge_value, merge_defaults, agent_type_defaults, apply_type_defaults,
}

-- The keys of a dict are distinct.
unfoldable pub IsDict : Members → Type 0
IsDict Members.empty = Unit
IsDict (Members.member k v ms) = (get k ms ≡ none) × IsDict ms

-- A value, or the one that stands for none.
pub or_else : Option Json → Option Json → Option Json
or_else (some v) o = some v
or_else none o = o

-- What a key has after the merge, from its default and the value before: the value or, where there
-- is none, the default; but two dicts are joined, where the keys of the value come first.
pub IsMerged : Option Json → Option Json → Option Json → Type 0
IsMerged none before after = after ≡ before
IsMerged (some default) none after = after ≡ some default
IsMerged (some (Json.object base)) (some (Json.object explicit)) after =
    (ms : Members) × (after ≡ some (Json.object ms))
    × ((k : String) → get k ms ≡ or_else (get k explicit) (get k base))
IsMerged (some default) (some v) after = after ≡ some v

-- The value, where it is a dict, has distinct keys.
unfoldable pub HasDict : Option Json → Type 0
HasDict (some (Json.object ms)) = IsDict ms
HasDict _ = Unit

-- Every dict among the values has distinct keys.
unfoldable pub HasDicts : Members → Type 0
HasDicts Members.empty = Unit
HasDicts (Members.member k v rest) = HasDict (some v) × HasDicts rest

HasDicts-get : (j : String) (ms : Members) → HasDicts ms → HasDict (get j ms)
unfolding HasDicts HasDict get
HasDicts-get j Members.empty h = tt
HasDicts-get j (Members.member k v ms) (h, hs) = elim (Bool-cases (str_eq j k)) [
  | inl same ↦ rw same h
  | inr other ↦ rw other (HasDicts-get j ms hs)
]

-- What a key has after the merge: its value before, over its default.
merged : Option Json → Option Json → Option Json
merged none before = before
merged (some default) before = some (merge_value default before)

pub get-remove :
    (j k : String) (ms : Members) → get j (remove k ms) ≡ (if str_eq j k then none else get j ms)
unfolding get remove
get-remove j k Members.empty = ground arith
get-remove j k (Members.member i w ms) =
    ground (arith, eq_iff j k, eq_iff j i, eq_iff k i, get-remove j k ms)

pub get-update_with :
    (j : String) (ms base : Members)
    → IsDict ms
    → get j (update_with ms base) ≡ or_else (get j ms) (get j base)
unfolding get update_with or_else IsDict
get-update_with j Members.empty base h = refl
get-update_with j (Members.member k v ms) base (new, h) = elim (Bool-cases (str_eq j k)) [
  | inl same ↦
      get-update_with j ms (put k v base) h
      ∙ rw (same, ap (λ i. get i ms) ((eq_iff j k).0 same) ∙ new, get-put j k v base, same) refl
  | inr other ↦ get-update_with j ms (put k v base) h ∙ rw (get-put j k v base, other) refl
]

get-merge_defaults :
    (j : String) (defaults properties : Members)
    → IsDict defaults
    → get j (merge_defaults defaults properties) ≡ merged (get j defaults) (get j properties)
unfolding get merge_defaults merged IsDict
get-merge_defaults j Members.empty properties h = refl
get-merge_defaults j (Members.member k v ms) properties (new, h) = elim (Bool-cases (str_eq j k)) [
  | inl same ↦
      let key : j ≡ k = (eq_iff j k).0 same in
      get-merge_defaults j ms (put k (merge_value v (get k properties)) properties) h
      ∙ rw
          (
            get-put j k (merge_value v (get k properties)) properties,
            same,
            ap (λ i. get i ms) key ∙ new,
            ap (λ i. get i properties) (sym key),
          )
          refl
  | inr other ↦
      get-merge_defaults j ms (put k (merge_value v (get k properties)) properties) h
      ∙ rw (get-put j k (merge_value v (get k properties)) properties, other) refl
]

merged-object :
    (base : Members) (v : Json)
    → HasDict (some v)
    → IsMerged (some (Json.object base)) (some v) (merged (some (Json.object base)) (some v))
unfolding merged merge_value IsMerged HasDict
merged-object base (Json.object ms) h =
    (update_with ms base, refl, λ k. get-update_with k ms base h)
merged-object base Json.null h = refl
merged-object base (Json.boolean b) h = refl
merged-object base (Json.number n) h = refl
merged-object base (Json.text t) h = refl
merged-object base (Json.array vs) h = refl

merged-IsMerged :
    (default before : Option Json)
    → HasDict before
    → IsMerged default before (merged default before)
unfolding merged merge_value IsMerged
merged-IsMerged none before h = refl
merged-IsMerged (some default) none h = refl
merged-IsMerged (some (Json.object base)) (some v) h = merged-object base v h
merged-IsMerged (some Json.null) (some v) h = refl
merged-IsMerged (some (Json.boolean b)) (some v) h = refl
merged-IsMerged (some (Json.number n)) (some v) h = refl
merged-IsMerged (some (Json.text t)) (some v) h = refl
merged-IsMerged (some (Json.array vs)) (some v) h = refl

-- Defaults that have no key twice, and no `type`.
AreProper : Option Members → Type 0
AreProper none = Unit
AreProper (some defaults) = IsDict (Members.member "type" Json.null defaults)

AreProper-if :
    (b : Bool) (x y : Option Members) → AreProper x → AreProper y → AreProper (if b then x else y)
AreProper-if true x y p q = p
AreProper-if false x y p q = q

agent_type_defaults-AreProper : (t : String) → AreProper (agent_type_defaults t)
unfolding agent_type_defaults AreProper IsDict get
agent_type_defaults-AreProper t =
    AreProper-if (str_eq t "miner") _ _ (refl, (refl, (refl, (refl, (refl, tt)))))
      (AreProper-if (str_eq t "user") _ _ (refl, (refl, (refl, (refl, tt))))
        (AreProper-if (str_eq t "relay") _ _ (refl, (refl, tt))
          (AreProper-if (str_eq t "spy") _ _ (refl, (refl, (refl, tt)))
            (AreProper-if (str_eq t "distributor") _ _ (refl, (refl, (refl, (refl, tt))))
              (AreProper-if (str_eq t "monitor") _ _ (refl, (refl, (refl, (refl, tt)))) tt)))))

-- With a known type and properties in which no dict has a key twice, the properties lose their
-- `type`, and every other key has the value it had or, where it had none, the type's default,
-- except that with a dict as its value and as its default it has a dict in which every key has
-- the value's entry or, where there is none, the default's.
pub apply_type_defaults-IsMerged :
    (properties defaults : Members) (t : String)
    → get "type" properties ≡ some (Json.text t)
    → agent_type_defaults t ≡ some defaults
    → HasDicts properties
    → (q : Members) × (apply_type_defaults properties ≡ ok q)
      × (get "type" q ≡ none)
      × ((j : String)
          → str_eq j "type" ≡ false
          → IsMerged (get j defaults) (get j properties) (get j q))
unfolding apply_type_defaults AreProper IsDict
apply_type_defaults-IsMerged properties defaults t typed e dicts =
    let (untyped, proper) = subst AreProper e (agent_type_defaults-AreProper t) in
    (
      merge_defaults defaults (remove "type" properties),
      rw (apply_type_defaults, typed, e) refl,
      get-merge_defaults "type" defaults (remove "type" properties) proper
          ∙ rw (untyped, get-remove "type" "type" properties) (unfold merged in refl),
      λ j other.
          subst (IsMerged (get j defaults) (get j properties))
            (sym (
              get-merge_defaults j defaults (remove "type" properties) proper
              ∙ rw (get-remove j "type" properties, other) refl))
            (merged-IsMerged (get j defaults) (get j properties) (HasDicts-get j properties dicts)),
    )

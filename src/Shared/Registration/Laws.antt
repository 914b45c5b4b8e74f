-- ===== src/Shared/Registration/Laws.antt =====
-- The entries of the agent registry before and after an agent has registered.

use zano_shadow_sim.Base.{
  ℕ, ◌+◌, ◌<◌, max, Bool, true, false, ◌≡◌, refl, ap, ◌⊎◌, inl, inr, Option, none, some, String,
  str_eq, eq_iff, arith, ok, if◌then◌else◌, Bool-cases,
}
use zano_shadow_sim.Shared.Json.{Json, Jsons, Members, snoc, get, put, get-put}
use zano_shadow_sim.Shared.Registration.{Registrant, new_agent_entry, is_text, set_address, enter}

unfoldable pub all_objects : Jsons → Bool
all_objects Jsons.nil = true
all_objects (Jsons.cons (Json.object ms) vs) = all_objects vs
all_objects (Jsons.cons _ vs) = false

-- How many entries have this id.
unfoldable pub count : String → Jsons → ℕ
count k Jsons.nil = 0
count k (Jsons.cons (Json.object ms) vs) = (if is_text k (get "id" ms) then 1 else 0) + count k vs
count k (Jsons.cons _ vs) = count k vs

-- The first entry with this id.
pub entry_of : String → Jsons → Option Members
entry_of k Jsons.nil = none
entry_of k (Jsons.cons (Json.object ms) vs) =
    if is_text k (get "id" ms) then some ms else entry_of k vs
entry_of k (Jsons.cons _ vs) = entry_of k vs

pub address_of : Option Members → Option Json
address_of none = none
address_of (some ms) = get "wallet_address" ms

-- The id was there, its first entry has the agent's address now, and the rest is as before.
record IsUpdated (a : Registrant) (vs ws : Jsons) : Type 0 where
  listed : 0 < count a.agent_id vs
  objects : all_objects ws ≡ true
  counts : (k : String) → count k ws ≡ count k vs
  addressed : address_of (entry_of a.agent_id ws) ≡ some a.wallet_address
  others : (k : String) → str_eq k a.agent_id ≡ false → entry_of k ws ≡ entry_of k vs

get-id-put : (w : Json) (ms : Members) → get "id" (put "wallet_address" w ms) ≡ get "id" ms
get-id-put w ms = get-put "id" "wallet_address" w ms

get-address-put :
    (w : Json) (ms : Members) → get "wallet_address" (put "wallet_address" w ms) ≡ some w
get-address-put w ms = get-put "wallet_address" "wallet_address" w ms

is_text-eq : (k s : String) (v : Option Json) → is_text s v ≡ true → is_text k v ≡ str_eq k s
is_text-eq k s (some (Json.text t)) h = ground (arith, eq_iff k t, eq_iff s t, eq_iff k s)
is_text-eq k s none h = absurd cc
is_text-eq k s (some Json.null) h = absurd cc
is_text-eq k s (some (Json.boolean b)) h = absurd cc
is_text-eq k s (some (Json.number n)) h = absurd cc
is_text-eq k s (some (Json.array vs)) h = absurd cc
is_text-eq k s (some (Json.object ms)) h = absurd cc

IsUpdated-here :
    (a : Registrant) (ms : Members) (vs : Jsons)
    → is_text a.agent_id (get "id" ms) ≡ true
    → all_objects vs ≡ true
    → IsUpdated a
        (Jsons.cons (Json.object ms) vs)
        (Jsons.cons (Json.object (put "wallet_address" a.wallet_address ms)) vs)
unfolding all_objects count entry_of address_of
IsUpdated-here a ms vs h objs = record {
  listed = rw h (omega arith);
  objects = objs;
  counts = λ k. rw (get-id-put a.wallet_address ms) refl;
  addressed = rw (get-id-put a.wallet_address ms, h) (get-address-put a.wallet_address ms);
  others = λ k other.
      rw (get-id-put a.wallet_address ms, is_text-eq k a.agent_id (get "id" ms) h, other) refl;
}

IsUpdated-later :
    (a : Registrant) (ms : Members) (vs ws : Jsons)
    → is_text a.agent_id (get "id" ms) ≡ false
    → IsUpdated a vs ws
    → IsUpdated a (Jsons.cons (Json.object ms) vs) (Jsons.cons (Json.object ms) ws)
unfolding all_objects count entry_of address_of
IsUpdated-later a ms vs ws h u = record {
  listed = omega (arith, u.listed);
  objects = u.objects;
  counts = λ k. omega (arith, u.counts k);
  addressed = rw h u.addressed;
  others = λ k other. rw (u.others k other) refl;
}

set_address-lem :
    (a : Registrant) (vs : Jsons)
    → all_objects vs ≡ true
    → ((set_address a vs ≡ ok none) × (count a.agent_id vs ≡ 0))
      ⊎ ((ws : Jsons) × (set_address a vs ≡ ok (some ws)) × IsUpdated a vs ws)
unfolding set_address all_objects count
set_address-lem a Jsons.nil h = inl (refl, refl)
set_address-lem a (Jsons.cons Json.null vs) h = absurd cc
set_address-lem a (Jsons.cons (Json.boolean b) vs) h = absurd cc
set_address-lem a (Jsons.cons (Json.number b) vs) h = absurd cc
set_address-lem a (Jsons.cons (Json.text b) vs) h = absurd cc
set_address-lem a (Jsons.cons (Json.array b) vs) h = absurd cc
set_address-lem a (Jsons.cons (Json.object ms) vs) h =
    elim (Bool-cases (is_text a.agent_id (get "id" ms))) [
      | inl here ↦ inr (_, rw here refl, IsUpdated-here a ms vs here h)
      | inr later ↦ elim (set_address-lem a vs h) [
        | inl (e, c) ↦ inl (rw (later, e) refl, rw later (omega (arith, c)))
        | inr (ws, e, u) ↦ inr (_, rw (later, e) refl, IsUpdated-later a ms vs ws later u)
      ]
    ]

-- A new entry at the end.
new_id :
    (k : String) (a : Registrant) → is_text k (get "id" (new_agent_entry a)) ≡ str_eq k a.agent_id
unfolding get
new_id k a = refl

count-snoc :
    (k : String) (a : Registrant) (vs : Jsons)
    → count k (snoc vs (Json.object (new_agent_entry a)))
      ≡ (if str_eq k a.agent_id then 1 else 0) + count k vs
unfolding count snoc
count-snoc k a Jsons.nil = rw (new_id k a) refl
count-snoc k a (Jsons.cons (Json.object ms) vs) = omega (arith, count-snoc k a vs)
count-snoc k a (Jsons.cons Json.null vs) = count-snoc k a vs
count-snoc k a (Jsons.cons (Json.boolean b) vs) = count-snoc k a vs
count-snoc k a (Jsons.cons (Json.number n) vs) = count-snoc k a vs
count-snoc k a (Jsons.cons (Json.text t) vs) = count-snoc k a vs
count-snoc k a (Jsons.cons (Json.array l) vs) = count-snoc k a vs

all_objects-snoc :
    (a : Registrant) (vs : Jsons)
    → all_objects vs ≡ true
    → all_objects (snoc vs (Json.object (new_agent_entry a))) ≡ true
unfolding all_objects snoc
all_objects-snoc a Jsons.nil h = refl
all_objects-snoc a (Jsons.cons (Json.object ms) vs) h = all_objects-snoc a vs h
all_objects-snoc a (Jsons.cons Json.null vs) h = h
all_objects-snoc a (Jsons.cons (Json.boolean b) vs) h = h
all_objects-snoc a (Jsons.cons (Json.number n) vs) h = h
all_objects-snoc a (Jsons.cons (Json.text t) vs) h = h
all_objects-snoc a (Jsons.cons (Json.array l) vs) h = h

entry_of-snoc_other :
    (k : String) (a : Registrant) (vs : Jsons)
    → str_eq k a.agent_id ≡ false
    → entry_of k (snoc vs (Json.object (new_agent_entry a))) ≡ entry_of k vs
unfolding entry_of snoc
entry_of-snoc_other k a Jsons.nil h = rw (new_id k a, h) refl
entry_of-snoc_other k a (Jsons.cons (Json.object ms) vs) h = rw (entry_of-snoc_other k a vs h) refl
entry_of-snoc_other k a (Jsons.cons Json.null vs) h = entry_of-snoc_other k a vs h
entry_of-snoc_other k a (Jsons.cons (Json.boolean b) vs) h = entry_of-snoc_other k a vs h
entry_of-snoc_other k a (Jsons.cons (Json.number n) vs) h = entry_of-snoc_other k a vs h
entry_of-snoc_other k a (Jsons.cons (Json.text t) vs) h = entry_of-snoc_other k a vs h
entry_of-snoc_other k a (Jsons.cons (Json.array l) vs) h = entry_of-snoc_other k a vs h

entry_of-snoc_self :
    (a : Registrant) (vs : Jsons)
    → count a.agent_id vs ≡ 0
    → entry_of a.agent_id (snoc vs (Json.object (new_agent_entry a))) ≡ some (new_agent_entry a)
unfolding entry_of snoc count
entry_of-snoc_self a Jsons.nil h =
    rw (new_id a.agent_id a, (eq_iff a.agent_id a.agent_id).1 refl) refl
entry_of-snoc_self a (Jsons.cons (Json.object ms) vs) h =
    elim (Bool-cases (is_text a.agent_id (get "id" ms))) [
      | inl here ↦ absurd (ground arith)
      | inr later ↦ rw later (entry_of-snoc_self a vs (ground arith))
    ]
entry_of-snoc_self a (Jsons.cons Json.null vs) h = entry_of-snoc_self a vs h
entry_of-snoc_self a (Jsons.cons (Json.boolean b) vs) h = entry_of-snoc_self a vs h
entry_of-snoc_self a (Jsons.cons (Json.number n) vs) h = entry_of-snoc_self a vs h
entry_of-snoc_self a (Jsons.cons (Json.text t) vs) h = entry_of-snoc_self a vs h
entry_of-snoc_self a (Jsons.cons (Json.array l) vs) h = entry_of-snoc_self a vs h

-- Where every entry is a dict, a registration succeeds; every entry is a dict afterwards, an id
-- has as many entries as before but the agent's own at least one, the first entry of the agent
-- has its wallet address, and the first entry of every other id is as before.
pub enter-lem :
    (a : Registrant) (vs : Jsons)
    → all_objects vs ≡ true
    → (ws : Jsons) × (enter a vs ≡ ok ws)
      × (all_objects ws ≡ true)
      × ((k : String)
          → count k ws ≡ (if str_eq k a.agent_id then max 1 (count k vs) else count k vs))
      × (address_of (entry_of a.agent_id ws) ≡ some a.wallet_address)
      × ((k : String) → str_eq k a.agent_id ≡ false → entry_of k ws ≡ entry_of k vs)
unfolding enter address_of
enter-lem a vs h = elim (set_address-lem a vs h) [
  | inl (e, new) ↦ (
    snoc vs (Json.object (new_agent_entry a)),
    rw e refl,
    all_objects-snoc a vs h,
    λ k. counted k (Bool-cases (str_eq k a.agent_id)) (count-snoc k a vs) new,
    rw (entry_of-snoc_self a vs new) (unfold get in refl),
    λ k other. entry_of-snoc_other k a vs other,
  )
  | inr (ws, e, u) ↦ (
    ws,
    rw e refl,
    u.objects,
    λ k. kept ws k (Bool-cases (str_eq k a.agent_id)) (u.counts k) u.listed,
    u.addressed,
    u.others,
  )
]
  where
    same : (k : String) → str_eq k a.agent_id ≡ true → count k vs ≡ count a.agent_id vs
    same k e = ap (λ j. count j vs) ((eq_iff k a.agent_id).0 e)

    counted :
        (k : String)
        → (str_eq k a.agent_id ≡ true) ⊎ (str_eq k a.agent_id ≡ false)
        → count k (snoc vs (Json.object (new_agent_entry a)))
          ≡ (if str_eq k a.agent_id then 1 else 0) + count k vs
        → count a.agent_id vs ≡ 0
        → count k (snoc vs (Json.object (new_agent_entry a)))
          ≡ (if str_eq k a.agent_id then max 1 (count k vs) else count k vs)
    counted k (inl e) c new = ground (arith, same k e)
    counted k (inr e) c new = ground arith

    kept :
        (ws : Jsons) (k : String)
        → (str_eq k a.agent_id ≡ true) ⊎ (str_eq k a.agent_id ≡ false)
        → count k ws ≡ count k vs
        → 0 < count a.agent_id vs
        → count k ws ≡ (if str_eq k a.agent_id then max 1 (count k vs) else count k vs)
    kept ws k (inl e) c listed = ground (arith, same k e)
    kept ws k (inr e) c listed = ground arith

-- An id that is not there yet is entered at the end.
pub enter_new :
    (a : Registrant) (vs : Jsons)
    → all_objects vs ≡ true
    → count a.agent_id vs ≡ 0
    → enter a vs ≡ ok (snoc vs (Json.object (new_agent_entry a)))
unfolding enter
enter_new a vs h new = elim (set_address-lem a vs h) [
  | inl (e, _) ↦ rw e refl
  | inr (ws, e, u) ↦ absurd (omega (arith, u.listed, new))
]

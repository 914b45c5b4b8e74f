-- ===== src/User/Recipients/Laws.antt =====
-- Who can be paid.
use mathlib.Core.Path.{subst}
use zano_shadow_sim.Base.{
  ℕ, suc, Bool, true, false, err, Result, ap, if◌then◌else◌, get_elem?, ◌≡◌, refl, sym, ◌∙◌, inl,
  inr, Option, none, some, List, [], ◌∷◌, String, ok, ◌>>=◌, bind-ok, ok-injective, All, Bool-cases,
}
use zano_shadow_sim.Shared.Json.{Json, Members, get, put, get-put}
use zano_shadow_sim.Shared.Values.{truthy}
use zano_shadow_sim.Shared.Registration.{is_text}
use zano_shadow_sim.User.Recipients.{
  SharedInfo, truthy_option, info_address, address_from, with_address, collect_others, registered,
  get_other_agents,
}

-- Among the entries.
abbrev pub Among : Json → List Json → Type 0
Among v agents = (i : ℕ) × (get_elem? agents i ≡ some v)

-- The dict that a file holds has this address.
abbrev pub Gives : Option Json → Json → Type 0
Gives file address =
    (ms : Members) × (file ≡ some (Json.object ms)) × (get "wallet_address" ms ≡ some address)

-- No dict in the file has an address.
abbrev pub GivesNone : Option Json → Type 0
GivesNone file =
    (ms : Members) → file ≡ some (Json.object ms) → truthy_option (get "wallet_address" ms) ≡ false

-- The address of a registered agent: its own or, where it has none, the one in its user's file or,
-- where there is none either, the one in its miner's file.
pub data IsAddressOf (shared : SharedInfo) (agent : Members) (address : Json) : Type 0 where
  from_registry : get "wallet_address" agent ≡ some address → IsAddressOf shared agent address
  from_user :
      truthy_option (get "wallet_address" agent) ≡ false
      → Gives (shared.user_info (get "id" agent)) address
      → IsAddressOf shared agent address
  from_miner :
      truthy_option (get "wallet_address" agent) ≡ false
      → GivesNone (shared.user_info (get "id" agent))
      → Gives (shared.miner_info (get "id" agent)) address
      → IsAddressOf shared agent address

-- A registered agent other than this one, at an address of its that is not empty.
abbrev pub IsOther : SharedInfo → String → List Json → Members → Json → Type 0
IsOther shared self agents agent address =
    Among (Json.object agent) agents
    × (is_text self (get "id" agent) ≡ false)
    × (truthy address ≡ true)
    × IsAddressOf shared agent address

-- The entry of such an agent, with the address.
abbrev pub IsPayable : SharedInfo → String → List Json → Members → Type 0
IsPayable shared self agents recipient =
    (agent : Members) × (address : Json) × (recipient ≡ put "wallet_address" address agent)
    × IsOther shared self agents agent address

no_address :
    (b : Bool) (w : Json)
    → if◌then◌else◌ {A = Result (Option Json)} b
        (err "AttributeError: no attribute 'get'")
        (ok none)
      ≡ ok (some w)
    → ⊥
no_address true w h = cc
no_address false w h = cc

info_address-Gives :
    (file : Option Json) (w : Json) → info_address file ≡ ok (some w) → Gives file w
unfolding info_address
info_address-Gives none w h = absurd cc
info_address-Gives (some (Json.object ms)) w h = (ms, refl, ok-injective _ _ h)
info_address-Gives (some Json.null) w h = absurd (no_address (truthy Json.null) w h)
info_address-Gives (some (Json.boolean b)) w h = absurd (no_address (truthy (Json.boolean b)) w h)
info_address-Gives (some (Json.number n)) w h = absurd (no_address (truthy (Json.number n)) w h)
info_address-Gives (some (Json.text t)) w h = absurd (no_address (truthy (Json.text t)) w h)
info_address-Gives (some (Json.array vs)) w h = absurd (no_address (truthy (Json.array vs)) w h)

info_address-GivesNone :
    (file o : Option Json) → info_address file ≡ ok o → truthy_option o ≡ false → GivesNone file
unfolding info_address
info_address-GivesNone file o h blank ms e =
    let same : get "wallet_address" ms ≡ o = ok-injective _ _ (sym (rw e refl) ∙ h) in rw same blank

address_from-IsAddressOf :
    (shared : SharedInfo) (agent : Members) (w : Json)
    → address_from shared agent ≡ ok (some w)
    → IsAddressOf shared agent w
unfolding address_from
address_from-IsAddressOf shared agent w h =
    elim (Bool-cases (truthy_option (get "wallet_address" agent))) [
      | inl full ↦ IsAddressOf.from_registry (ok-injective _ _ (sym (rw full refl) ∙ h))
      | inr blank ↦
          let (user, e, rest) =
            bind-ok (info_address (shared.user_info (get "id" agent)))
              (λ user.
                if truthy_option user
                then ok user
                else info_address (shared.miner_info (get "id" agent)))
              (some w) (sym (rw blank refl) ∙ h) in
          elim (Bool-cases (truthy_option user)) [
            | inl there ↦
                let same : user ≡ some w = ok-injective _ _ (sym (rw there refl) ∙ rest) in
                IsAddressOf.from_user blank (info_address-Gives _ w (e ∙ ap ok same))
            | inr gone ↦
                IsAddressOf.from_miner blank (info_address-GivesNone _ user e gone)
                  (info_address-Gives _ w (sym (rw gone refl) ∙ rest))
          ]
    ]

pub get-id-put : (w : Json) (ms : Members) → get "id" (put "wallet_address" w ms) ≡ get "id" ms
get-id-put w ms = get-put "id" "wallet_address" w ms

pub get-address-put :
    (w : Json) (ms : Members) → get "wallet_address" (put "wallet_address" w ms) ≡ some w
get-address-put w ms = get-put "wallet_address" "wallet_address" w ms

with_address-IsPayable :
    (shared : SharedInfo) (self : String) (agents : List Json) (agent : Members)
    (address : Option Json) (others : List Members)
    → address_from shared agent ≡ ok address
    → is_text self (get "id" agent) ≡ false
    → Among (Json.object agent) agents
    → All (IsPayable shared self agents) others
    → All (IsPayable shared self agents) (with_address agent address others)
unfolding with_address
with_address-IsPayable shared self agents agent none others e h at hs = hs
with_address-IsPayable shared self agents agent (some w) others e h at hs =
    elim (Bool-cases (truthy w)) [
      | inl full ↦
          rw full ((agent, w, refl, (at, h, full, address_from-IsAddressOf shared agent w e)), hs)
      | inr blank ↦ rw blank hs
    ]

Payable-later :
    (shared : SharedInfo) (self : String) (v : Json) (agents : List Json) (others : List Members)
    → All (IsPayable shared self agents) others
    → All (IsPayable shared self (v ∷ agents)) others
Payable-later shared self v agents [] h = tt
Payable-later shared self v agents (r ∷ others) ((agent, w, e, ((i, at), other, full, from)), hs) =
    ((agent, w, e, ((suc i, at), other, full, from)), Payable-later shared self v agents others hs)

collect_others-IsPayable :
    (shared : SharedInfo) (self : String) (agents : List Json) (others : List Members)
    → collect_others shared self agents ≡ ok others
    → All (IsPayable shared self agents) others
unfolding collect_others
collect_others-IsPayable shared self [] others h =
    subst (All (IsPayable shared self [])) (ok-injective [] others h) tt
collect_others-IsPayable shared self (Json.object agent ∷ agents) others h =
    elim (Bool-cases (is_text self (get "id" agent))) [
      | inl own ↦
          Payable-later shared self (Json.object agent) agents others
            (collect_others-IsPayable shared self agents others (sym (rw own refl) ∙ h))
      | inr other ↦
          let (address, e, rest) =
            bind-ok (address_from shared agent)
              (λ address.
                collect_others shared self agents >>= λ more. ok (with_address agent address more))
              others (sym (rw other refl) ∙ h) in
          let (more, f, done) =
            bind-ok (collect_others shared self agents)
              (λ more. ok (with_address agent address more)) others rest in
          subst (All (IsPayable shared self (Json.object agent ∷ agents)))
            (ok-injective (with_address agent address more) others done)
            (with_address-IsPayable shared self (Json.object agent ∷ agents) agent address more e
              other (0, refl)
              (Payable-later shared self (Json.object agent) agents more
                (collect_others-IsPayable shared self agents more f)))
    ]
collect_others-IsPayable shared self (Json.null ∷ agents) others h = absurd cc
collect_others-IsPayable shared self (Json.boolean b ∷ agents) others h = absurd cc
collect_others-IsPayable shared self (Json.number n ∷ agents) others h = absurd cc
collect_others-IsPayable shared self (Json.text t ∷ agents) others h = absurd cc
collect_others-IsPayable shared self (Json.array vs ∷ agents) others h = absurd cc

pub get_other_agents-IsPayable :
    (shared : SharedInfo) (self : String) (others : List Members)
    → get_other_agents shared self ≡ ok others
    → (agents : List Json) × (registered shared.agent_registry ≡ ok agents)
      × All (IsPayable shared self agents) others
unfolding get_other_agents
get_other_agents-IsPayable shared self others h =
    let (agents, e, rest) =
      bind-ok (registered shared.agent_registry) (λ a. collect_others shared self a) others h in
    (agents, e, collect_others-IsPayable shared self agents others rest)

-- ===== src/User/Payments.antt =====
-- Whom a regular user pays.
use mathlib.Core.Option.{some-injective}
use mathlib.Core.Path.{subst}
use zano_shadow_sim.Base.{
  Bool, true, false, ◌&&◌, ◌≡◌, refl, sym, ◌∙◌, inl, inr, Option, none, some, ap, List, ltb,
  if◌then◌else◌, get_elem?, ok, bind-ok, ok-injective, All, Bool-cases, sort_by, All-sort_by,
  All-get_elem?,
}
use zano_shadow_sim.Float.{Float}
use zano_shadow_sim.Shared.Json.{Json, Members, get}
use zano_shadow_sim.Shared.Values.{truthy}
use zano_shadow_sim.User.Recipients.{SharedInfo, registered, get_other_agents, id_key}
use zano_shadow_sim.User.Recipients.Laws.{
  IsOther, IsPayable, get-id-put, get-address-put, get_other_agents-IsPayable,
}
use zano_shadow_sim.User.{
  User, Transfer, Turn, pay_to, pay_one, send_random_transaction, maybe_send,
}

module _ (D : Float) where
  -- To another registered agent, with its id, at its address.
  pub IsPayment : SharedInfo → User → Option Transfer → Type 0
  IsPayment shared u none = Unit
  IsPayment shared u (some transfer) =
      (agents : List Json) × (agent : Members) × (registered shared.agent_registry ≡ ok agents)
      × (get "id" transfer.recipient ≡ get "id" agent)
      × IsOther shared u.agent_id agents agent transfer.address

  IsPayment-if :
      (shared : SharedInfo) (u : User) (b : Bool) (sent : Option Transfer)
      → IsPayment shared u sent
      → IsPayment shared u (if b then sent else none)
  unfolding IsPayment
  IsPayment-if shared u true sent h = h
  IsPayment-if shared u false sent h = tt

  chosen-IsPayment :
      (u : User) (t : Turn D) (agents : List Json) (recipient : Members) (address : Option Json)
      → registered t.shared.agent_registry ≡ ok agents
      → IsPayable t.shared u.agent_id agents recipient
      → get "wallet_address" recipient ≡ address
      → IsPayment t.shared u (pay_to D t recipient address)
  unfolding IsPayment pay_to
  chosen-IsPayment u t agents recipient none listed h e = tt
  chosen-IsPayment u t agents recipient (some address) listed (agent, w, made, other) e =
      let same : w ≡ address =
        some-injective w address
          (sym (ap (get "wallet_address") made ∙ get-address-put w agent) ∙ e) in
      IsPayment-if t.shared u (truthy address) _ (
        agents,
        agent,
        listed,
        ap (get "id") made ∙ get-id-put w agent,
        subst (IsOther t.shared u.agent_id agents agent) same other,
      )

  picked-IsPayment :
      (u : User) (t : Turn D) (agents : List Json) (others : List Members) (o : Option Members)
      (sent : Option Transfer)
      → registered t.shared.agent_registry ≡ ok agents
      → All (IsPayable t.shared u.agent_id agents) others
      → get_elem? (sort_by id_key others) t.choice ≡ o
      → pay_one D t o ≡ sent
      → IsPayment t.shared u sent
  unfolding pay_one IsPayment
  picked-IsPayment u t agents others none sent listed h e p = subst (IsPayment t.shared u) p tt
  picked-IsPayment u t agents others (some recipient) sent listed h e p =
      subst (IsPayment t.shared u) p (
        chosen-IsPayment u t agents recipient (get "wallet_address" recipient) listed
          (All-get_elem? (IsPayable t.shared u.agent_id agents) (sort_by id_key others) t.choice
            recipient (All-sort_by id_key (IsPayable t.shared u.agent_id agents) others h) e)
          refl)

  -- A transfer that a user asks for is to an agent of the registry other than itself, under that
  -- agent's id and at its address, which is not empty: the one that the registry has for it or,
  -- where that has none, the one in its user file or, where that has none either, the one in its
  -- miner file.
  pub maybe_send-IsPayment :
      (t : Turn D) (u : User) (sent : Option Transfer)
      → maybe_send D t u ≡ ok sent
      → IsPayment t.shared u sent
  unfolding maybe_send send_random_transaction IsPayment
  maybe_send-IsPayment t u sent h =
      let (unlocked, e, rest) = bind-ok t.balance _ sent h in
      elim (Bool-cases (ltb 0 unlocked && t.draws_transaction)) [
        | inr fails ↦
            subst (IsPayment t.shared u) (ok-injective none sent (sym (rw fails refl) ∙ rest)) tt
        | inl holds ↦
            let (others, f, done) =
              bind-ok (get_other_agents t.shared u.agent_id)
                (λ others. ok (pay_one D t (get_elem? (sort_by id_key others) t.choice))) sent
                (sym (rw holds refl) ∙ rest) in
            let (agents, listed, payable) =
              get_other_agents-IsPayable t.shared u.agent_id others f in
            picked-IsPayment u t agents others (get_elem? (sort_by id_key others) t.choice) sent
              listed payable refl (ok-injective _ sent done)
      ]

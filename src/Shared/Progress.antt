-- ===== src/Shared/Progress.antt =====
-- The lock is never left behind: how an agent that holds it goes on.
use Prim.Native.Nat.{ℕ}
use mathlib.Core.Path.{subst}
use mathlib.Core.List.{append-nil, append_assoc}
use zano_shadow_sim.Base.{
  true, ◌≡◌, refl, sym, ◌∙◌, ◌⊎◌, inl, inr, none, some, List, ◌++◌, arith, Result-cases,
}
use zano_shadow_sim.Shared.Jobs.{Format, File, Job, work}
use zano_shadow_sim.Shared.Steps.{
  Store, Phase, critical, set_at, System, quiet, Move, Step, Reach, start, later, pick,
}
use zano_shadow_sim.Shared.Invariant.{Prepared, Inv-quiet, Reach-Inv, set_at-lem}

set_at_self : {F : Format} (i : ℕ) (q : Phase F) (phases : ℕ → Phase F) → set_at i q phases i ≡ q
set_at_self i q phases = ground arith

module _ {F : Format} where
  abbrev Held : System F → Type 0
  Held s = (j : ℕ) → s.store.lock ≡ some j → critical (s.phases j) ≡ true

  Move-lock :
      {i : ℕ} {s t : Store F} {p q : Phase F} {jobs : List Job}
      → Move i s p t q jobs
      → (t.lock ≡ none)
        ⊎ ((critical q ≡ true) × (t.lock ≡ some i))
        ⊎ ((t.lock ≡ s.lock) × (critical p ≡ critical q))
  Move-lock (Move.call job) = inr (inr (refl, refl))
  Move-lock (Move.acquire free) = inr (inl (refl, refl))
  Move-lock (Move.compute e) = inr (inr (refl, refl))
  Move-lock (Move.refuse e) = inr (inr (refl, refl))
  Move-lock Move.read_fails = inr (inr (refl, refl))
  Move-lock Move.open_temp = inr (inr (refl, refl))
  Move-lock Move.open_fails = inr (inr (refl, refl))
  Move-lock Move.dump = inr (inr (refl, refl))
  Move-lock (Move.dump_fails part) = inr (inr (refl, refl))
  Move-lock (Move.rename e) = inr (inr (refl, refl))
  Move-lock Move.rename_fails = inr (inr (refl, refl))
  Move-lock Move.unlock = inl refl

  Step-Held : {s t : System F} {jobs : List Job} → Step s t jobs → Held s → Held t
  Step-Held {s} (pick i {t} {p = q} mv) held = elim (Move-lock mv) [
    | inl free ↦ λ j h. absurd (ground (arith, free, h))
    | inr (inl (c, own)) ↦
        set_at-lem (λ j p. t.lock ≡ some j → critical p ≡ true) i q s.phases (λ _. c)
          (λ j other h. absurd (ground (arith, own, h)))
    | inr (inr (same, kept)) ↦
        set_at-lem (λ j p. t.lock ≡ some j → critical p ≡ true) i q s.phases
          (λ h. sym kept ∙ held i (sym same ∙ h)) (λ j other h. held j (sym same ∙ h))
  ]

  Reach-Held : {s t : System F} {jobs : List Job} → Held s → Reach s t jobs → Held t
  Reach-Held held start = held
  Reach-Held held (later r st) = Step-Held st (Reach-Held held r)

  Reach-trans :
      {s t u : System F} {jobs more : List Job}
      → Reach s t jobs
      → Reach t u more
      → Reach s u (jobs ++ more)
  Reach-trans {s} {t} {jobs = jobs} r start = subst (Reach s t) (sym (append-nil jobs)) r
  Reach-trans {s} {u = u} {jobs = jobs} r (later {jobs = a} {more = b} q st) =
      subst (Reach s u) (append_assoc jobs a b) (later (Reach-trans r q) st)

  -- The agent that is at `p` moves first.
  act :
      {s u : System F} (i : ℕ) {p q : Phase F} {t : Store F} {jobs more : List Job}
      → s.phases i ≡ p
      → Move i s.store p t q jobs
      → Reach (record { store = t; phases = set_at i q s.phases }) u more
      → Reach s u (jobs ++ more)
  act {s} i {p} {q} {t} {jobs} e mv r =
      Reach-trans (later start (pick i (subst (λ p. Move i s.store p t q jobs) (sym e) mv))) r

  -- Steps of the agent alone, after which it is between two calls and the lock is free.
  abbrev Frees : System F → ℕ → Type 0
  Frees s i =
      (t : System F) × (jobs : List Job) × Reach s t jobs
      × (t.store.lock ≡ none)
      × (t.phases i ≡ Phase.idle)

  before :
      {s : System F} (i : ℕ) {p q : Phase F} {t : Store F} {jobs : List Job}
      → s.phases i ≡ p
      → Move i s.store p t q jobs
      → Frees (record { store = t; phases = set_at i q s.phases }) i
      → Frees s i
  before i e mv (u, more, r, free, at_rest) = (u, _, act i e mv r, free, at_rest)

  from_leaving : (s : System F) (i : ℕ) → s.phases i ≡ Phase.leaving → Frees s i
  from_leaving s i e = before i e Move.unlock (_, _, start, refl, set_at_self i Phase.idle s.phases)

  from_written :
      (s : System F) (i : ℕ) (job : Job) (c : F.Text)
      → s.phases i ≡ Phase.written job c
      → s.store.temp ≡ some c
      → Frees s i
  from_written s i job c e there =
      before i e (Move.rename there) (from_leaving _ i (set_at_self i Phase.leaving s.phases))

  from_writing :
      (s : System F) (i : ℕ) (job : Job) (c : F.Text) → s.phases i ≡ Phase.writing job c → Frees s i
  from_writing s i job c e =
      before i e Move.dump (from_written _ i job c (set_at_self i _ s.phases) refl)

  from_ready :
      (s : System F) (i : ℕ) (job : Job) (c : F.Text) → s.phases i ≡ Phase.ready job c → Frees s i
  from_ready s i job c e =
      before i e Move.open_temp (from_writing _ i job c (set_at_self i _ s.phases))

  from_holding : (s : System F) (i : ℕ) (job : Job) → s.phases i ≡ Phase.holding job → Frees s i
  from_holding s i job e = elim (Result-cases (work F job s.store.file)) [
    | inl (c, w) ↦ before i e (Move.compute w) (from_ready _ i job c (set_at_self i _ s.phases))
    | inr (x, w) ↦ before i e (Move.refuse w) (from_leaving _ i (set_at_self i _ s.phases))
  ]

  from_critical :
      (s : System F) (i : ℕ) (p : Phase F)
      → s.phases i ≡ p
      → critical p ≡ true
      → Prepared s.store p
      → Frees s i
  from_critical s i Phase.idle e c h = absurd cc
  from_critical s i (Phase.waiting job) e c h = absurd cc
  from_critical s i (Phase.holding job) e c h = from_holding s i job e
  from_critical s i (Phase.ready job text) e c h = from_ready s i job text e
  from_critical s i (Phase.writing job text) e c h = from_writing s i job text e
  from_critical s i (Phase.written job text) e c h = from_written s i job text e h.1
  from_critical s i Phase.leaving e c h = from_leaving s i e

  -- From a reachable state in which an agent holds the lock, there are steps that lead to one
  -- where the lock is free and that agent is between two calls.
  pub lock_comes_free :
      {file temp : File F} {s : System F} {jobs : List Job} (i : ℕ)
      → Reach (quiet file temp) s jobs
      → s.store.lock ≡ some i
      → (t : System F) × (more : List Job) × Reach s t more
        × (t.store.lock ≡ none)
        × (t.phases i ≡ Phase.idle)
  lock_comes_free {file} {temp} {s} i r owned =
      from_critical s i (s.phases i) refl (Reach-Held (λ j h. absurd cc) r i owned)
        ((Reach-Inv (Inv-quiet file temp) r).prepared i)

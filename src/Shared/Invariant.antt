-- ===== src/Shared/Invariant.antt =====
-- What holds between two steps: the lock's owner, and what an agent in its call has computed.
use Prim.Native.Nat.{ℕ}
use mathlib.Core.Option.{some-injective}
use mathlib.Core.Path.{subst}
use mathlib.Core.Logic.{◌⊎◌, inl, inr}
use zano_shadow_sim.Base.{
  true, false, ◌≡◌, refl, sym, ◌∙◌, none, some, List, arith, ok, ◌==◌, Bool-cases,
}
use zano_shadow_sim.Shared.Jobs.{Format, File, Job, work}
use zano_shadow_sim.Shared.Steps.{
  Store, Phase, critical, set_at, System, quiet, Move, Step, Reach, start, later, pick,
}

-- A property of each agent and its phase after one agent has moved.
pub set_at-lem :
    {F : Format} (P : ℕ → Phase F → Type 0) (i : ℕ) (q : Phase F) (phases : ℕ → Phase F)
    → P i q
    → ((j : ℕ) → (i == j) ≡ false → P j (phases j))
    → (j : ℕ) → P j (set_at i q phases j)
set_at-lem P i q phases here others j = elim (Bool-cases (i == j)) [
  | inl same ↦ rw same (subst (λ k. P k q) (ground arith) here)
  | inr other ↦ rw other (others j other)
]

module _ {F : Format} where
  -- What is to be written is made of the file as it is, and the temporary file holds all of it when
  -- it is renamed.
  abbrev pub Prepared : Store F → Phase F → Type 0
  Prepared s (Phase.ready job content) = work F job s.file ≡ ok content
  Prepared s (Phase.writing job content) = work F job s.file ≡ ok content
  Prepared s (Phase.written job content) =
      (work F job s.file ≡ ok content) × (s.temp ≡ some content)
  Prepared s _ = Unit

  pub record Inv (s : Store F) (phases : ℕ → Phase F) : Type 0 where
    pub owned : (i : ℕ) → critical (phases i) ≡ true → s.lock ≡ some i
    pub prepared : (i : ℕ) → Prepared s (phases i)

  pub Inv-quiet : (file temp : File F) → Inv (quiet file temp).store (quiet file temp).phases
  Inv-quiet file temp = record { owned = λ i c. cc; prepared = λ i. tt }

  -- An agent outside the critical section has prepared nothing.
  Prepared-outside : (s : Store F) (p : Phase F) → critical p ≡ false → Prepared s p
  Prepared-outside s Phase.idle h = tt
  Prepared-outside s (Phase.waiting job) h = tt
  Prepared-outside s (Phase.holding job) h = tt
  Prepared-outside s (Phase.ready job content) h = absurd cc
  Prepared-outside s (Phase.writing job content) h = absurd cc
  Prepared-outside s (Phase.written job content) h = absurd cc
  Prepared-outside s Phase.leaving h = tt

  Prepared-same :
      (s t : Store F) (p : Phase F)
      → t.file ≡ s.file
      → t.temp ≡ s.temp
      → Prepared s p
      → Prepared t p
  Prepared-same s t Phase.idle f m h = tt
  Prepared-same s t (Phase.waiting job) f m h = tt
  Prepared-same s t (Phase.holding job) f m h = tt
  Prepared-same s t (Phase.ready job content) f m h = rw f h
  Prepared-same s t (Phase.writing job content) f m h = rw f h
  Prepared-same s t (Phase.written job content) f m h = (rw f h.0, m ∙ h.1)
  Prepared-same s t Phase.leaving f m h = tt

  module _ {i : ℕ} {s : Store F} where
    -- An agent in the critical section afterwards holds the lock.
    Move-owns :
        {t : Store F} {p q : Phase F} {jobs : List Job}
        → Move i s p t q jobs
        → (critical p ≡ true → s.lock ≡ some i)
        → critical q ≡ true
        → t.lock ≡ some i
    Move-owns (Move.call job) h c = absurd cc
    Move-owns (Move.acquire free) h c = refl
    Move-owns (Move.compute e) h c = h refl
    Move-owns (Move.refuse e) h c = h refl
    Move-owns Move.read_fails h c = h refl
    Move-owns Move.open_temp h c = h refl
    Move-owns Move.open_fails h c = h refl
    Move-owns Move.dump h c = h refl
    Move-owns (Move.dump_fails part) h c = h refl
    Move-owns (Move.rename e) h c = h refl
    Move-owns Move.rename_fails h c = h refl
    Move-owns Move.unlock h c = absurd cc

    Move-Prepared :
        {t : Store F} {p q : Phase F} {jobs : List Job}
        → Move i s p t q jobs
        → Prepared s p
        → Prepared t q
    Move-Prepared (Move.call job) h = tt
    Move-Prepared (Move.acquire free) h = tt
    Move-Prepared (Move.compute e) h = e
    Move-Prepared (Move.refuse e) h = tt
    Move-Prepared Move.read_fails h = tt
    Move-Prepared Move.open_temp h = h
    Move-Prepared Move.open_fails h = tt
    Move-Prepared Move.dump h = (h, refl)
    Move-Prepared (Move.dump_fails part) h = tt
    Move-Prepared (Move.rename e) h = tt
    Move-Prepared Move.rename_fails h = tt
    Move-Prepared Move.unlock h = tt

    -- A step outside the critical section only takes a free lock.
    Move-outside :
        {t : Store F} {p q : Phase F} {jobs : List Job}
        → Move i s p t q jobs
        → (critical p ≡ true)
          ⊎ ((t.file ≡ s.file) × (t.temp ≡ s.temp) × ((t.lock ≡ s.lock) ⊎ (s.lock ≡ none)))
    Move-outside (Move.call job) = inr (refl, refl, inl refl)
    Move-outside (Move.acquire free) = inr (refl, refl, inr free)
    Move-outside (Move.compute e) = inl refl
    Move-outside (Move.refuse e) = inl refl
    Move-outside Move.read_fails = inl refl
    Move-outside Move.open_temp = inl refl
    Move-outside Move.open_fails = inl refl
    Move-outside Move.dump = inl refl
    Move-outside (Move.dump_fails part) = inl refl
    Move-outside (Move.rename e) = inl refl
    Move-outside Move.rename_fails = inl refl
    Move-outside Move.unlock = inl refl

  -- The other agents' part of the invariant is kept.
  Move-others :
      {i : ℕ} {s t : Store F} {phases : ℕ → Phase F} {q : Phase F} {jobs : List Job}
      → Move i s (phases i) t q jobs
      → Inv s phases
      → (j : ℕ) → (i == j) ≡ false
      → (critical (phases j) ≡ true → t.lock ≡ some j) × Prepared t (phases j)
  Move-others {i} {s} {t} {phases} mv inv j other = elim (Bool-cases (critical (phases j))) [
    | inr out ↦ (λ c. cc, Prepared-outside t (phases j) out)
    | inl in_j ↦ elim (Move-outside mv) [
      | inl in_i ↦ absurd (ground (arith, inv.owned i in_i, inv.owned j in_j))
      | inr (f, m, inl same) ↦
          (λ c. same ∙ inv.owned j c, Prepared-same s t (phases j) f m (inv.prepared j))
      | inr (f, m, inr free) ↦ absurd (ground (arith, free, inv.owned j in_j))
    ]
  ]

  Move-Inv :
      {i : ℕ} {s t : Store F} {phases : ℕ → Phase F} {q : Phase F} {jobs : List Job}
      → Move i s (phases i) t q jobs
      → Inv s phases
      → Inv t (set_at i q phases)
  Move-Inv {i} {s} {t} {phases} {q} mv inv = record {
    owned =
        set_at-lem (λ j p. critical p ≡ true → t.lock ≡ some j) i q phases
          (Move-owns mv (inv.owned i)) (λ j other. (Move-others mv inv j other).0);
    prepared =
        set_at-lem (λ j p. Prepared t p) i q phases (Move-Prepared mv (inv.prepared i))
          (λ j other. (Move-others mv inv j other).1);
  }

  Step-Inv :
      {s t : System F} {jobs : List Job}
      → Step s t jobs
      → Inv s.store s.phases
      → Inv t.store t.phases
  Step-Inv (pick i mv) inv = Move-Inv mv inv

  pub Reach-Inv :
      {s t : System F} {jobs : List Job}
      → Inv s.store s.phases
      → Reach s t jobs
      → Inv t.store t.phases
  Reach-Inv inv start = inv
  Reach-Inv inv (later r st) = Step-Inv st (Reach-Inv inv r)

  -- Whatever steps lead to a state from one where all agents are between two calls and the lock
  -- is free, agents in the critical section of the same file's lock are one agent.
  pub mutual_exclusion :
      {file temp : File F} {t : System F} {jobs : List Job}
      → Reach (quiet file temp) t jobs
      → (i j : ℕ) → critical (t.phases i) ≡ true
      → critical (t.phases j) ≡ true
      → i ≡ j
  mutual_exclusion {file} {temp} {t} r i j in_i in_j = some-injective i j (
      sym ((Reach-Inv (Inv-quiet file temp) r).owned i in_i)
      ∙ (Reach-Inv (Inv-quiet file temp) r).owned j in_j)

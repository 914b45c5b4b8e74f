-- ===== src/Generator/Agents/Laws.antt =====
-- The ids of agents: a number after a name.
use mathlib.Core.List.{append_cancel_left}
use zano_shadow_sim.Base.{
  ℕ, zero, suc, ◌+◌, ◌<◌, ◌≡◌, ◌≢◌, inl, inr, refl, ap, sym, ◌∙◌, true, false, ◌&&◌, List, [], ◌∷◌,
  ◌++◌, String, str_eq, eq_iff, arith, Bool-cases, codes, all_digits, is_digit, value, decimal, ◌%◌,
  ◌/◌, ◌==◌, leb, codes-text_of, text_of-injective, IsChars, IsChars-append, all_digits-decimal,
}
use zano_shadow_sim.Timing.Duration.{with_suffix, format_time_offset}
use zano_shadow_sim.Scenario.{replicate, id_format}
use zano_shadow_sim.Scenario.Laws.Ids.{value-id_format}
use zano_shadow_sim.Generator.Agents.{numbered}

IsChars-of_digits : (s : List ℕ) → all_digits s ≡ true → IsChars s
unfolding all_digits is_digit
IsChars-of_digits [] h = tt
IsChars-of_digits (c ∷ s) h = (ground arith, IsChars-of_digits s (ground arith))

all_digits-replicate :
    (n : ℕ) (s : List ℕ) → all_digits s ≡ true → all_digits (replicate n b'0' ++ s) ≡ true
unfolding all_digits is_digit
all_digits-replicate zero s h = h
all_digits-replicate (suc n) s h = all_digits-replicate n s h

IsChars-id_format : (width i : ℕ) → IsChars (id_format width i)
unfolding id_format
IsChars-id_format width i =
    IsChars-of_digits _ (all_digits-replicate _ (decimal i) (all_digits-decimal i))

-- The name's code points are below the surrogates.
numbered-IsChars :
    (name : String) (i : ℕ)
    → IsChars (codes name)
    → IsChars (codes name ++ b'-' ∷ id_format 3 (i + 1))
numbered-IsChars name i h =
    IsChars-append (codes name) _ h (omega arith, IsChars-id_format 3 (i + 1))

tail-eq : (c : ℕ) (s t : List ℕ) → c ∷ s ≡ c ∷ t → s ≡ t
tail-eq c s t e = cc

numbered-injective :
    (name : String) (i j : ℕ) → IsChars (codes name) → numbered name i ≡ numbered name j → i ≡ j
unfolding numbered
numbered-injective name i j h e =
    let texts = text_of-injective _ _ (numbered-IsChars name i h) (numbered-IsChars name j h) e in
    let digits = tail-eq _ _ _ (append_cancel_left (codes name) _ _ texts) in
    omega (arith, ap value digits, (value-id_format 3 (i + 1)).0, (value-id_format 3 (j + 1)).0)

str_eq-of_ne : (s t : String) → (s ≡ t → ⊥) → str_eq s t ≡ false
str_eq-of_ne s t h = elim (Bool-cases (str_eq s t)) [
  | inl e ↦ absurd (h ((eq_iff s t).0 e))
  | inr e ↦ e
]

pub numbered-ne :
    (name : String) (i j : ℕ)
    → IsChars (codes name)
    → i ≢ j
    → str_eq (numbered name i) (numbered name j) ≡ false
numbered-ne name i j h d = str_eq-of_ne _ _ (λ e. d (numbered-injective name i j h e))

-- Two texts that begin differently.
str_eq-of_heads :
    (s t : String) (c d : ℕ) (x y : List ℕ)
    → codes s ≡ c ∷ x
    → codes t ≡ d ∷ y
    → c ≢ d
    → str_eq s t ≡ false
str_eq-of_heads s t c d x y e f h = str_eq-of_ne s t (λ p. h (head-eq (sym e ∙ ap codes p ∙ f)))
  where
    head-eq : c ∷ x ≡ d ∷ y → c ≡ d
    head-eq q = cc

codes-numbered :
    (name : String) (i : ℕ)
    → IsChars (codes name)
    → codes (numbered name i) ≡ codes name ++ b'-' ∷ id_format 3 (i + 1)
unfolding numbered
codes-numbered name i h = codes-text_of _ (numbered-IsChars name i h)

-- No user has the id of another kind of agent.
pub user-ne-relay : (i j : ℕ) → str_eq (numbered "user" i) (numbered "relay" j) ≡ false
user-ne-relay i j =
    str_eq-of_heads _ _ b'u' b'r' _ _ (codes-numbered "user" i (omega arith))
      (codes-numbered "relay" j (omega arith)) (omega arith)

pub user-ne-seed : (i j : ℕ) → str_eq (numbered "user" i) (numbered "monero-seed" j) ≡ false
user-ne-seed i j =
    str_eq-of_heads _ _ b'u' b'm' _ _ (codes-numbered "user" i (omega arith))
      (codes-numbered "monero-seed" j (omega arith)) (omega arith)

pub user-ne-distributor : (i : ℕ) → str_eq (numbered "user" i) "miner-distributor" ≡ false
user-ne-distributor i =
    str_eq-of_heads _ _ b'u' b'm' _ _ (codes-numbered "user" i (omega arith)) refl (omega arith)

pub user-ne-monitor : (i : ℕ) → str_eq (numbered "user" i) "simulation-monitor" ≡ false
user-ne-monitor i =
    str_eq-of_heads _ _ b'u' b's' _ _ (codes-numbered "user" i (omega arith)) refl (omega arith)

pub users-ne : (i j : ℕ) → i ≢ j → str_eq (numbered "user" i) (numbered "user" j) ≡ false
users-ne i j = numbered-ne "user" i j (omega arith)

IsChars-with_suffix : (n u : ℕ) → u < 55296 → IsChars (with_suffix n u)
unfolding with_suffix
IsChars-with_suffix n u h =
    IsChars-append (decimal n) (u ∷ []) (IsChars-of_digits _ (all_digits-decimal n)) (h, tt)

pub IsChars-format_time_offset : (n : ℕ) → IsChars (format_time_offset n true)
unfolding format_time_offset
IsChars-format_time_offset n = elim (Bool-cases (n % 3600 == 0 && leb 3600 n)) [
  | inl h ↦ rw h (IsChars-with_suffix (n / 3600) b'h' (omega arith))
  | inr h ↦ elim (Bool-cases (n % 60 == 0 && leb 60 n)) [
    | inl m ↦ rw (h, m) (IsChars-with_suffix (n / 60) b'm' (omega arith))
    | inr s ↦ rw (h, s) (IsChars-with_suffix n b's' (omega arith))
  ]
]

-- ===== src/Yaml/Quoting.antt =====
-- What is printed for a text is read back as that text.
use mathlib.Core.Option
use mathlib.Core.Path.{subst}
use zano_shadow_sim.Base.{
  ℕ, ◌≡◌, ◌⊎◌, refl, sym, ap, ◌∙◌, Bool, true, false, ◌&&◌, Option, none, some, List, [], ◌∷◌, ◌++◌,
  String, leb, ◌==◌, if◌then◌else◌, arith, inl, inr, Bool-cases, codes, text_eq, is_empty, lower,
}
use zano_shadow_sim.Shared.Json.{Json}
use zano_shadow_sim.Yaml.{
  is_among, keywords, has_special, double_quotes, single_quote, roundtrips_unquoted, same_text,
  format_text, format_yaml_value,
}
use zano_shadow_sim.Yaml.Numbers.{is_float}

-- YAML's single-quoted scalars: the text after the opening quote, in which two quotes stand for one.
unfoldable pub unquote_rest : List ℕ → Option (List ℕ)
unquote_rest [] = none
unquote_rest (c ∷ []) = if c == b'\'' then some [] else none
unquote_rest (c ∷ d ∷ s) =
    let plain = Option.map (λ t. c ∷ t) (unquote_rest (d ∷ s)) in
    let quote = Option.map (λ t. b'\'' ∷ t) (unquote_rest s) in
    if c == b'\'' then (if d == b'\'' then quote else none) else plain

unfoldable pub unquote : List ℕ → Option (List ℕ)
unfolding unquote_rest
unquote [] = none
unquote (c ∷ s) = if c == b'\'' then unquote_rest s else none

-- Printable ASCII.
unfoldable pub is_printable : List ℕ → Bool
is_printable [] = true
is_printable (c ∷ s) = leb 32 c && (leb c 126 && is_printable s)

-- The text is read as a text with these code points.
abbrev pub ReadsAs : (List ℕ → Option Json) → List ℕ → List ℕ → Type 0
ReadsAs load t s = (r : String) × (load t ≡ some (Json.text r)) × (codes r ≡ s)

not_empty-snoc : (t : List ℕ) (c : ℕ) → is_empty (t ++ c ∷ []) ≡ false
not_empty-snoc [] c = refl
not_empty-snoc (d ∷ t) c = refl

unquote_rest-plain :
    (c : ℕ) (t : List ℕ)
    → (c == b'\'') ≡ false
    → is_empty t ≡ false
    → unquote_rest (c ∷ t) ≡ Option.map (λ u. c ∷ u) (unquote_rest t)
unfolding unquote_rest
unquote_rest-plain c [] h e = absurd cc
unquote_rest-plain c (d ∷ t) h e = rw h refl

unquote_rest-double_quotes : (s : List ℕ) → unquote_rest (double_quotes s ++ b'\'' ∷ []) ≡ some s
unfolding unquote_rest double_quotes
unquote_rest-double_quotes [] = refl
unquote_rest-double_quotes (c ∷ s) = elim (Bool-cases (c == b'\'')) [
  | inl q ↦ rw (q, unquote_rest-double_quotes s) (ap (λ t. some (t ∷ s)) (is_quote c q))
  | inr p ↦ rw p (
      unquote_rest-plain c (double_quotes s ++ b'\'' ∷ []) p
        (not_empty-snoc (double_quotes s) b'\'')
      ∙ rw (unquote_rest-double_quotes s) refl)
]
  where
    is_quote : (c : ℕ) → (c == b'\'') ≡ true → b'\'' ≡ c
    is_quote c q = ground arith

unquote-single_quote : (s : List ℕ) → unquote (single_quote s) ≡ some s
unfolding unquote single_quote
unquote-single_quote s = unquote_rest-double_quotes s

text_eq_sound : (s t : List ℕ) → text_eq s t ≡ true → s ≡ t
unfolding text_eq
text_eq_sound [] [] h = refl
text_eq_sound [] (b ∷ t) h = absurd cc
text_eq_sound (a ∷ s) [] h = absurd cc
text_eq_sound (a ∷ s) (b ∷ t) h =
    λ i. same a b (ground arith) i ∷ text_eq_sound s t (ground arith) i
  where
    same : (a b : ℕ) → (a == b) ≡ true → a ≡ b
    same a b e = ground arith

same_text_sound :
    (o : Option Json) (s : List ℕ)
    → same_text o s ≡ true
    → (r : String) × (o ≡ some (Json.text r)) × (codes r ≡ s)
unfolding same_text
same_text_sound none s h = absurd cc
same_text_sound (some (Json.text r)) s h = (r, refl, text_eq_sound (codes r) s h)
same_text_sound (some Json.null) s h = absurd cc
same_text_sound (some (Json.boolean b)) s h = absurd cc
same_text_sound (some (Json.number n)) s h = absurd cc
same_text_sound (some (Json.array vs)) s h = absurd cc
same_text_sound (some (Json.object ms)) s h = absurd cc

-- Quoted, or read back already.
format_text-cases :
    (safe_load : List ℕ → Option Json) (str : Json → List ℕ) (s : List ℕ)
    → (format_text safe_load str s ≡ single_quote s)
      ⊎ ((format_text safe_load str s ≡ s) × (same_text (safe_load s) s ≡ true))
unfolding format_text roundtrips_unquoted
format_text-cases safe_load str s = elim (Bool-cases (is_among (lower s) keywords)) [
  | inl h ↦ inl (rw (h, format_text) refl)
  | inr h ↦ elim (Bool-cases (has_special s)) [
    | inl k ↦ inl (rw (h, k, format_text) refl)
    | inr k ↦ elim (Bool-cases (is_float s)) [
      | inl f ↦ inl (rw (h, k, f, format_text) refl)
      | inr f ↦ elim (Bool-cases (roundtrips_unquoted safe_load str s)) [
        | inl r ↦
            inr (rw (h, k, f, r, format_text) refl, unfold roundtrips_unquoted in ground (arith, r))
        | inr r ↦ inl (rw (h, k, f, r, format_text) refl)
      ]
    ]
  ]
]

-- Where a loader reads the single-quoted scalars of YAML whose text is printable ASCII, it reads
-- what is printed for such a text back as that text, whatever it looks like.
pub format_yaml_value-ReadsAs :
    (safe_load : List ℕ → Option Json) (str : Json → List ℕ)
    → ((t s : List ℕ) → unquote t ≡ some s → is_printable s ≡ true → ReadsAs safe_load t s)
    → (value : String) → is_printable (codes value) ≡ true
    → ReadsAs safe_load (format_yaml_value safe_load str (Json.text value)) (codes value)
unfolding format_yaml_value
format_yaml_value-ReadsAs safe_load str scalars value printable =
    elim (format_text-cases safe_load str (codes value)) [
      | inl quoted ↦
          subst (λ t. ReadsAs safe_load t (codes value)) (sym quoted)
            (scalars (single_quote (codes value)) (codes value) (unquote-single_quote (codes value))
              printable)
      | inr (plain, same) ↦
          subst (λ t. ReadsAs safe_load t (codes value)) (sym plain)
            (same_text_sound (safe_load (codes value)) (codes value) same)
    ]

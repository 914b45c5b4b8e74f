-- ===== src/Tests/Yaml.antt =====
-- Examples of how texts are printed for YAML.
use mathlib.Core.Option
use zano_shadow_sim.Base.{
  ℕ, ◌≡◌, refl, ap, true, Option, List, [], ◌∷◌, arith, codes, text_of, IsChars, codes-text_of,
  some,
}
use zano_shadow_sim.Shared.Json.{Json}
use zano_shadow_sim.Yaml.{format_yaml_value}
use zano_shadow_sim.Yaml.Quoting.{unquote, is_printable, ReadsAs, format_yaml_value-ReadsAs}

-- A reader of single-quoted scalars only.
abbrev load_quoted : List ℕ → Option Json
load_quoted t = Option.map (λ s. Json.text (text_of s)) (unquote t)

IsChars-of_printable : (s : List ℕ) → is_printable s ≡ true → IsChars s
unfolding is_printable
IsChars-of_printable [] h = tt
IsChars-of_printable (c ∷ s) h = (ground arith, IsChars-of_printable s (ground arith))

load_quoted-ReadsAs :
    (t s : List ℕ) → unquote t ≡ some s → is_printable s ≡ true → ReadsAs load_quoted t s
load_quoted-ReadsAs t s e h = (
  text_of s,
  ap (Option.map (λ u. Json.text (text_of u))) e,
  codes-text_of s (IsChars-of_printable s h),
)

format_yaml_value-ReadsAs_example :
    ReadsAs load_quoted
      (format_yaml_value load_quoted (λ v. []) (Json.text "it's 0x10"))
      (codes "it's 0x10")
unfolding is_printable
format_yaml_value-ReadsAs_example =
    format_yaml_value-ReadsAs load_quoted (λ v. []) load_quoted-ReadsAs "it's 0x10" refl

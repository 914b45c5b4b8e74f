-- ===== src/Yaml.antt =====
-- scripts/config_generation/yaml_emit.py: how a configuration is printed. Texts are their code
-- points, and values are those of Shared.Json.
pub mod Numbers
pub mod Quoting
use zano_shadow_sim.Base.{
  ℕ, zero, suc, ◌+◌, Bool, true, false, not, ◌&&◌, ◌||◌, Option, none, some, List, [], ◌∷◌, ◌++◌,
  String, str_eq, ◌==◌, if◌then◌else◌, is_empty, codes, lower, text_eq,
}
use zano_shadow_sim.Shared.Json.{Json, Jsons, Members}
use zano_shadow_sim.Yaml.Numbers.{is_float}

-- `value in (...)`
unfoldable pub is_among : List ℕ → List (List ℕ) → Bool
is_among s [] = false
is_among s (t ∷ ts) = text_eq s t || is_among s ts

abbrev pub keywords : List (List ℕ)
keywords =
    codes "true"
    ∷ codes "false"
    ∷ codes "yes"
    ∷ codes "no"
    ∷ codes "on"
    ∷ codes "off"
    ∷ codes "null"
    ∷ codes "none"
    ∷ []

unfoldable pub one_of : ℕ → List ℕ → Bool
one_of c [] = false
one_of c (d ∷ ds) = c == d || one_of c ds

-- `any(c in value for c in ':{}[]&*#?|-<>=!%@\\')`
unfoldable pub has_special : List ℕ → Bool
unfolding one_of
has_special [] = false
has_special (c ∷ s) = one_of c (codes ":{}[]&*#?|-<>=!%@\\") || has_special s

-- `value.replace("'", "''")`
unfoldable pub double_quotes : List ℕ → List ℕ
double_quotes [] = []
double_quotes (c ∷ s) =
    let rest = double_quotes s in if c == b'\'' then b'\'' ∷ b'\'' ∷ rest else c ∷ rest

unfoldable pub single_quote : List ℕ → List ℕ
unfolding double_quotes
single_quote value = b'\'' ∷ (double_quotes value ++ b'\'' ∷ [])

-- `isinstance(parsed, str) and parsed == value`
unfoldable pub same_text : Option Json → List ℕ → Bool
same_text (some (Json.text parsed)) value = text_eq (codes parsed) value
same_text _ value = false

-- `yaml.safe_load`, with no value where it raises; `str` prints what is neither a text, nor a number,
-- nor a Boolean.
module _ (safe_load : List ℕ → Option Json) (str : Json → List ℕ) where
  unfoldable pub roundtrips_unquoted : List ℕ → Bool
  unfolding same_text
  roundtrips_unquoted value = not (is_empty value) && same_text (safe_load value) value

  unfoldable pub format_text : List ℕ → List ℕ
  unfolding is_among has_special single_quote roundtrips_unquoted
  format_text value =
      if is_among (lower value) keywords
      then single_quote value
      else if has_special value
      then single_quote value
      else if is_float value
      then single_quote value
      else if not (roundtrips_unquoted value)
      then single_quote value
      else value

  unfoldable pub format_yaml_value : Json → List ℕ
  unfolding format_text
  format_yaml_value (Json.text s) = format_text (codes s)
  format_yaml_value (Json.boolean true) = codes "true"
  format_yaml_value (Json.boolean false) = codes "false"
  format_yaml_value (Json.number n) = codes n
  format_yaml_value value = str value

  -- `"  " * indent`
  unfoldable pub spaces : ℕ → List ℕ
  spaces zero = []
  spaces (suc n) = 32 ∷ 32 ∷ spaces n

  -- `"\n".join(lines)`
  unfoldable pub join_lines : List (List ℕ) → List ℕ
  join_lines [] = []
  join_lines (l ∷ []) = l
  join_lines (l ∷ k ∷ lines) = l ++ 10 ∷ join_lines (k ∷ lines)

  -- `f"{start}{key}: {value}"`
  unfoldable pub entry : List ℕ → String → List ℕ → List ℕ
  entry start key value = start ++ (codes key ++ b':' ∷ 32 ∷ value)

  -- `f"{start}{key}:"`
  unfoldable pub opening : List ℕ → String → List ℕ
  opening start key = start ++ (codes key ++ b':' ∷ [])

  -- The lines of a dict's entries, of a list's items, and of the entries of an item; `dash` stands
  -- before the first of them.
  unfoldable mutual
    unfolding format_yaml_value spaces join_lines entry opening

    pub config_lines : ℕ → Members → List (List ℕ)
    config_lines indent Members.empty = []
    config_lines indent (Members.member key (Json.object ms) rest) =
        opening (spaces indent) key
        ∷ join_lines (config_lines (suc indent) ms)
        ∷ config_lines indent rest
    config_lines indent (Members.member key (Json.array vs) rest) =
        opening (spaces indent) key ∷ (item_lines indent vs ++ config_lines indent rest)
    config_lines indent (Members.member key value rest) =
        entry (spaces indent) key (format_yaml_value value) ∷ config_lines indent rest

    pub item_lines : ℕ → Jsons → List (List ℕ)
    item_lines indent Jsons.nil = []
    item_lines indent (Jsons.cons (Json.object ms) vs) =
        entry_lines indent (spaces indent ++ codes "  - ") ms ++ item_lines indent vs
    item_lines indent (Jsons.cons v vs) =
        (spaces indent ++ (codes "  - " ++ format_yaml_value v)) ∷ item_lines indent vs

    pub entry_lines : ℕ → List ℕ → Members → List (List ℕ)
    entry_lines indent dash Members.empty = []
    entry_lines indent dash (Members.member key (Json.object ms) rest) =
        opening dash key
        ∷ join_lines (config_lines (suc (suc (suc indent))) ms)
        ∷ entry_lines indent (spaces indent ++ codes "    ") rest
    entry_lines indent dash (Members.member key value rest) =
        entry dash key (format_yaml_value value)
        ∷ entry_lines indent (spaces indent ++ codes "    ") rest

  unfoldable pub config_to_yaml : Members → ℕ → List ℕ
  unfolding config_lines join_lines
  config_to_yaml config indent = join_lines (config_lines indent config)

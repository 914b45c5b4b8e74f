-- ===== src/Base/Chars.antt =====
-- Texts from their code points.
use Prim.Native.Nat.{ℕ, ◌<◌, Ordering, compare}
use Prim.Native.Char.{Char, char, code, nul, IsScalar}
use Prim.Native.String.{String}
use mathlib.Core.Path.{◌≡◌, refl, ap, sym, ◌∙◌}
use mathlib.Core.List.{List, [], ◌∷◌, ◌++◌}
use native.Mathlib.Omega.{arith, compare-eq, compare-gt}
use zano_shadow_sim.Base.Text.{codes}

IsScalar-of_compare : (n : ℕ) (o : Ordering) → compare n 55296 ≡ o → n < 55296 → IsScalar n
IsScalar-of_compare n Ordering.lt e h = rw e tt
IsScalar-of_compare n Ordering.eq e h = absurd (omega (arith, compare-eq n 55296 e))
IsScalar-of_compare n Ordering.gt e h = absurd (omega (arith, compare-gt n 55296 e))

char_if : (n : ℕ) (o : Ordering) → compare n 55296 ≡ o → Char
char_if n Ordering.lt e = char n (rw e tt)
char_if n Ordering.eq e = nul
char_if n Ordering.gt e = nul

code-char_if :
    (n : ℕ) (o : Ordering) (e : compare n 55296 ≡ o) → n < 55296 → code (char_if n o e) ≡ n
unfolding char_if
code-char_if n Ordering.lt e h = refl
code-char_if n Ordering.eq e h = absurd (omega (arith, compare-eq n 55296 e))
code-char_if n Ordering.gt e h = absurd (omega (arith, compare-gt n 55296 e))

-- `chr(c)`, below the surrogates
unfoldable pub char_of : ℕ → Char
unfolding char_if
char_of c = char_if c (compare c 55296) refl

unfoldable pub text_of : List ℕ → String
unfolding char_of
text_of [] = String.[]
text_of (c ∷ s) = String.◌∷◌ (char_of c) (text_of s)

-- Every code point is below the surrogates.
abbrev pub IsChars : List ℕ → Type 0
IsChars [] = Unit
IsChars (c ∷ s) = (c < 55296) × IsChars s

pub codes-text_of : (s : List ℕ) → IsChars s → codes (text_of s) ≡ s
unfolding text_of char_of
codes-text_of [] h = refl
codes-text_of (c ∷ s) (p, h) = λ i. code-char_if c (compare c 55296) refl p i ∷ codes-text_of s h i

pub text_of-injective : (s t : List ℕ) → IsChars s → IsChars t → text_of s ≡ text_of t → s ≡ t
text_of-injective s t p q e = sym (codes-text_of s p) ∙ ap codes e ∙ codes-text_of t q

pub IsChars-append : (s t : List ℕ) → IsChars s → IsChars t → IsChars (s ++ t)
IsChars-append [] t h q = q
IsChars-append (c ∷ s) t (p, h) q = (p, IsChars-append s t h q)

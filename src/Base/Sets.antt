-- ===== src/Base/Sets.antt =====
-- Python's sets of strings, as lists without repetition in the order of insertion.
use Prim.Native.String.{String}
use mathlib.Core.Path.{◌≡◌, refl}
use mathlib.Core.Bool.{Bool, false, ◌||◌}
use mathlib.Core.List.{List, [], ◌∷◌, ◌++◌}
use native.Mathlib.Omega.{arith}
use text.Mathlib.Text.{◌==◌ as str_eq}
use text.Mathlib.TextEquality.{eq_iff}
use zano_shadow_sim.Base.Tests.{if◌then◌else◌}

-- `x in xs`
unfoldable pub contains : String → List String → Bool
contains x [] = false
contains x (y ∷ ys) = str_eq x y || contains x ys

-- `s.add(x)`
unfoldable pub add : String → List String → List String
unfolding contains
add x s = if contains x s then s else s ++ x ∷ []

-- `s.discard(x)`
unfoldable pub discard : String → List String → List String
discard x [] = []
discard x (y ∷ ys) = let rest = discard x ys in if str_eq x y then rest else y ∷ rest

-- `s.update(xs)`; `set(xs)` is `update xs []`.
unfoldable pub update : List String → List String → List String
unfolding add
update [] s = s
update (x ∷ xs) s = update xs (add x s)

pub contains-append :
    (x : String) (s t : List String) → contains x (s ++ t) ≡ (contains x s || contains x t)
unfolding contains
contains-append x [] t = refl
contains-append x (y ∷ s) t = ground (arith, contains-append x s t)

pub contains-nil : (x : String) → contains x [] ≡ false
unfolding contains
contains-nil x = refl

pub contains-cons :
    (x y : String) (s : List String) → contains x (y ∷ s) ≡ (str_eq x y || contains x s)
unfolding contains
contains-cons x y s = refl

pub contains-add :
    (x y : String) (s : List String) → contains x (add y s) ≡ (str_eq x y || contains x s)
unfolding add contains
contains-add x y s = ground (arith, contains-append x s (y ∷ []), eq_iff x y)

pub contains-discard :
    (x y : String) (s : List String)
    → contains x (discard y s) ≡ (if str_eq y x then false else contains x s)
unfolding discard contains
contains-discard x y [] = ground arith
contains-discard x y (z ∷ s) =
    ground (arith, contains-discard x y s, eq_iff x y, eq_iff x z, eq_iff y z, eq_iff y x)

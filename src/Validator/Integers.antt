-- ===== src/Validator/Integers.antt =====
-- Whole numbers, and the least and the greatest of a list.
pub mod Laws
use zano_shadow_sim.Base.{
  ℕ, ◌+◌, ◌-◌, Bool, true, false, List, [], ◌∷◌, Option, none, some, ltb, leb, if◌then◌else◌, min,
  max,
}

pub data ℤ : Type 0 where
  pos : ℕ → ℤ
  negsuc : ℕ → ℤ

-- `a - b`
unfoldable pub difference : ℕ → ℕ → ℤ
difference a b = if leb b a then ℤ.pos (a - b) else ℤ.negsuc (b - a - 1)

-- `z < n`
unfoldable pub is_below : ℕ → ℤ → Bool
is_below n (ℤ.pos a) = ltb a n
is_below n (ℤ.negsuc a) = true

-- `a <= b`
unfoldable pub leb_ℤ : ℤ → ℤ → Bool
leb_ℤ (ℤ.pos a) (ℤ.pos b) = leb a b
leb_ℤ (ℤ.pos a) (ℤ.negsuc b) = false
leb_ℤ (ℤ.negsuc a) (ℤ.pos b) = true
leb_ℤ (ℤ.negsuc a) (ℤ.negsuc b) = leb b a

-- `min(x, *xs)`
unfoldable pub least : ℕ → List ℕ → ℕ
least x [] = x
least x (y ∷ ys) = min x (least y ys)

-- `max(x, *xs)`
unfoldable pub greatest : ℕ → List ℕ → ℕ
greatest x [] = x
greatest x (y ∷ ys) = max x (greatest y ys)

unfoldable pub least_ℤ : ℤ → List ℤ → ℤ
unfolding leb_ℤ
least_ℤ x [] = x
least_ℤ x (y ∷ ys) = let rest = least_ℤ y ys in if leb_ℤ x rest then x else rest

-- `min(xs)`, where there is one
unfoldable pub min_of : List ℕ → Option ℕ
unfolding least
min_of [] = none
min_of (x ∷ xs) = some (least x xs)

unfoldable pub max_of : List ℕ → Option ℕ
unfolding greatest
max_of [] = none
max_of (x ∷ xs) = some (greatest x xs)

unfoldable pub min_of_ℤ : List ℤ → Option ℤ
unfolding least_ℤ
min_of_ℤ [] = none
min_of_ℤ (x ∷ xs) = some (least_ℤ x xs)

-- ===== src/Base/Sort.antt =====
-- Python's stable sort by a text key.
use Prim.Native.String.{String, compare}
use mathlib.Core.Path.{◌≡◌, refl, ap, ◌∙◌}
use mathlib.Core.Bool.{Bool, true, false}
use mathlib.Core.List.{List, [], ◌∷◌}
use native.Mathlib.Omega.{arith}
use text.Mathlib.Text.{is_le}
use Prim.Native.Nat.{suc}
use zano_shadow_sim.Base.Tests.{if◌then◌else◌}
use zano_shadow_sim.Base.Lists.{length, All}

module _ {ℓ} {A : Type ℓ} (key : A → String) where
  -- `x` comes before the items whose keys are not below its own.
  unfoldable pub insert_sorted : A → List A → List A
  insert_sorted x [] = x ∷ []
  insert_sorted x (y ∷ ys) =
      if is_le (compare (key x) (key y)) then x ∷ y ∷ ys else y ∷ insert_sorted x ys

  unfoldable pub sort_by : List A → List A
  unfolding insert_sorted
  sort_by [] = []
  sort_by (x ∷ xs) = insert_sorted x (sort_by xs)

  length-insert_sorted : (x : A) (ys : List A) → length (insert_sorted x ys) ≡ suc (length ys)
  unfolding insert_sorted
  length-insert_sorted x [] = refl
  length-insert_sorted x (y ∷ ys) = ground (arith, length-insert_sorted x ys)

  pub length-sort_by : (xs : List A) → length (sort_by xs) ≡ length xs
  unfolding sort_by
  length-sort_by [] = refl
  length-sort_by (x ∷ xs) = length-insert_sorted x (sort_by xs) ∙ ap suc (length-sort_by xs)

module _ {ℓ κ} {A : Type ℓ} (key : A → String) (P : A → Type κ) where
  All-if : (b : Bool) (xs ys : List A) → All P xs → All P ys → All P (if b then xs else ys)
  All-if true xs ys p q = p
  All-if false xs ys p q = q

  All-insert_sorted : (x : A) (ys : List A) → P x → All P ys → All P (insert_sorted key x ys)
  unfolding insert_sorted
  All-insert_sorted x [] p ps = (p, tt)
  All-insert_sorted x (y ∷ ys) p (q, ps) =
      All-if (is_le (compare (key x) (key y))) (x ∷ y ∷ ys) (y ∷ insert_sorted key x ys)
        (p, (q, ps)) (q, All-insert_sorted x ys p ps)

  pub All-sort_by : (xs : List A) → All P xs → All P (sort_by key xs)
  unfolding sort_by
  All-sort_by [] p = tt
  All-sort_by (x ∷ xs) (p, ps) = All-insert_sorted x (sort_by key xs) p (All-sort_by xs ps)

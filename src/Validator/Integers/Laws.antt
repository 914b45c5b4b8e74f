-- ===== src/Validator/Integers/Laws.antt =====
-- The least and the greatest of a list.
use zano_shadow_sim.Base.{
  ℕ, suc, ◌≤◌, ◌≡◌, refl, ◌⊎◌, inl, inr, Option, none, some, List, [], ◌∷◌, arith, All, Bool-cases,
  leb, get_elem?,
}
use zano_shadow_sim.Validator.Integers.{least, greatest, min_of, max_of}

pub All-weaken {ℓ κ ι} :
    {A : Type ℓ} (P : A → Type κ) (Q : A → Type ι)
    → ((a : A) → P a → Q a)
    → (xs : List A) → All P xs
    → All Q xs
All-weaken P Q f [] h = tt
All-weaken P Q f (x ∷ xs) (p, ps) = (f x p, All-weaken P Q f xs ps)

abbrev pub Within : ℕ → ℕ → ℕ → Type 0
Within lo hi n = (lo ≤ n) × (n ≤ hi)

pub least-greatest : (x : ℕ) (xs : List ℕ) → All (Within (least x xs) (greatest x xs)) (x ∷ xs)
unfolding least greatest
least-greatest x [] = ((omega arith, omega arith), tt)
least-greatest x (y ∷ ys) =
    let (h, hs) = least-greatest y ys in
    (
      (omega arith, omega arith),
      All-weaken (Within (least y ys) (greatest y ys))
          (Within (least x (y ∷ ys)) (greatest x (y ∷ ys)))
          (λ n (lo, hi). (omega (arith, lo), omega (arith, hi))) (y ∷ ys) (h, hs),
    )

-- The number stands at some place of the list.
abbrev pub Has : ℕ → List ℕ → Type 0
Has n xs = (i : ℕ) × (get_elem? xs i ≡ some n)

Has-one_of : (x y z : ℕ) (ys : List ℕ) → Has y ys → (z ≡ x) ⊎ (z ≡ y) → Has z (x ∷ ys)
Has-one_of x y z ys (i, e) (inl h) = (0, rw h refl)
Has-one_of x y z ys (i, e) (inr h) = (suc i, rw h e)

pub Has-least : (x : ℕ) (xs : List ℕ) → Has (least x xs) (x ∷ xs)
unfolding least
Has-least x [] = (0, refl)
Has-least x (y ∷ ys) = elim (Bool-cases (leb x (least y ys))) [
  | inl below ↦ Has-one_of x _ _ (y ∷ ys) (Has-least y ys) (inl (ground arith))
  | inr above ↦ Has-one_of x _ _ (y ∷ ys) (Has-least y ys) (inr (ground arith))
]

pub Has-greatest : (x : ℕ) (xs : List ℕ) → Has (greatest x xs) (x ∷ xs)
unfolding greatest
Has-greatest x [] = (0, refl)
Has-greatest x (y ∷ ys) = elim (Bool-cases (leb x (greatest y ys))) [
  | inl below ↦ Has-one_of x _ _ (y ∷ ys) (Has-greatest y ys) (inr (ground arith))
  | inr above ↦ Has-one_of x _ _ (y ∷ ys) (Has-greatest y ys) (inl (ground arith))
]

-- The first two are the least and the greatest of the list.
abbrev pub AreExtremes : ℕ → ℕ → List ℕ → Type 0
AreExtremes lo hi xs = All (Within lo hi) xs × Has lo xs × Has hi xs

pub least-greatest-AreExtremes :
    (x : ℕ) (xs : List ℕ) → AreExtremes (least x xs) (greatest x xs) (x ∷ xs)
least-greatest-AreExtremes x xs = (least-greatest x xs, Has-least x xs, Has-greatest x xs)

-- The same, where there are any numbers; both are missing otherwise.
unfoldable pub IsSpan : Option ℕ → Option ℕ → List ℕ → Type 0
IsSpan lo hi [] = (lo ≡ none) × (hi ≡ none)
IsSpan lo hi (x ∷ xs) = (a : ℕ) × (b : ℕ) × (lo ≡ some a) × (hi ≡ some b) × AreExtremes a b (x ∷ xs)

pub min_of-max_of-IsSpan : (xs : List ℕ) → IsSpan (min_of xs) (max_of xs) xs
unfolding IsSpan min_of max_of
min_of-max_of-IsSpan [] = (refl, refl)
min_of-max_of-IsSpan (x ∷ xs) =
    (least x xs, greatest x xs, refl, refl, least-greatest-AreExtremes x xs)

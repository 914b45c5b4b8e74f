-- ===== src/Validator/Upgrade/Laws.antt =====
-- The times of an upgrade scenario.
use mathlib.Core.Path.{subst}
use zano_shadow_sim.Base.{
  ℕ, ◌+◌, ◌-◌, ◌≤◌, ◌<◌, min, max, ◌≡◌, refl, inl, inr, some, List, [], ◌∷◌, arith, leb, ltb, All,
  Option, none, length, sum, Bool-cases,
}
use zano_shadow_sim.Float.{Float}
use zano_shadow_sim.Validator.Integers.{least, greatest, min_of}
use zano_shadow_sim.Validator.Integers.Laws.{
  least-greatest-AreExtremes, AreExtremes, IsSpan, min_of-max_of-IsSpan,
}
use zano_shadow_sim.Validator.Agents.{AgentInfo}
use zano_shadow_sim.Validator.Upgrade.{
  collect, insert_in, sorted, staggers, average, UpgradeInfo, analyze_upgrade,
}

-- From `y` on the list rises to `hi`, its last element.
Rises : ℕ → ℕ → List ℕ → Type 0
Rises y hi [] = y ≡ hi
Rises y hi (z ∷ zs) = (y ≤ z) × Rises z hi zs

Rises-le : (y hi : ℕ) (ys : List ℕ) → Rises y hi ys → y ≤ hi
unfolding Rises
Rises-le y hi [] h = omega (arith, h)
Rises-le y hi (z ∷ zs) (le, h) = omega (arith, le, Rises-le z hi zs h)

Rises-to : (y : ℕ) {hi hi' : ℕ} (ys : List ℕ) → hi ≡ hi' → Rises y hi ys → Rises y hi' ys
Rises-to y ys e h = subst (λ t. Rises y t ys) e h

Rises-insert_in :
    (x y hi : ℕ) (ys : List ℕ) → y ≤ x → Rises y hi ys → Rises y (max x hi) (insert_in x ys)
unfolding Rises insert_in
Rises-insert_in x y hi [] le h = (le, omega (arith, h))
Rises-insert_in x y hi (z ∷ zs) le (first, h) = elim (Bool-cases (leb x z)) [
  | inl below ↦ rw below (le, (ground arith, Rises-to z zs (ground (arith, Rises-le z hi zs h)) h))
  | inr above ↦ rw above (first, Rises-insert_in x z hi zs (ground arith) h)
]

-- A sorted list, by its head.
Sorts : ℕ → ℕ → List ℕ → Type 0
Sorts lo hi l = (ys : List ℕ) × (l ≡ lo ∷ ys) × Rises lo hi ys

Sorts-from : {lo lo' : ℕ} (hi : ℕ) (l : List ℕ) → lo ≡ lo' → Sorts lo hi l → Sorts lo' hi l
Sorts-from hi l e h = subst (λ t. Sorts t hi l) e h

Sorts-insert_in :
    (x lo hi : ℕ) (l : List ℕ) → Sorts lo hi l → Sorts (min x lo) (max x hi) (insert_in x l)
unfolding Sorts insert_in Rises
Sorts-insert_in x lo hi l (ys, e, h) = elim (Bool-cases (leb x lo)) [
  | inl below ↦
      let rises : Rises lo (max x hi) ys = Rises-to lo ys (ground (arith, Rises-le lo hi ys h)) h in
      rw (e, below)
        (Sorts-from {lo = x} (max x hi) (x ∷ lo ∷ ys) (ground arith)
          (lo ∷ ys, refl, (ground arith, rises)))
  | inr above ↦
      rw (e, above)
        (Sorts-from {lo = lo} (max x hi) (lo ∷ insert_in x ys) (ground arith)
          (insert_in x ys, refl, Rises-insert_in x lo hi ys (ground arith) h))
]

sorted-Sorts : (x : ℕ) (xs : List ℕ) → Sorts (least x xs) (greatest x xs) (sorted (x ∷ xs))
unfolding Sorts sorted least greatest Rises insert_in
sorted-Sorts x [] = ([], refl, refl)
sorted-Sorts x (y ∷ ys) =
    Sorts-insert_in x (least y ys) (greatest y ys) (sorted (y ∷ ys)) (sorted-Sorts y ys)

sum-staggers_rising : (y hi : ℕ) (ys : List ℕ) → Rises y hi ys → y + sum (staggers (y ∷ ys)) ≡ hi
unfolding Rises staggers
sum-staggers_rising y hi [] h = omega (arith, h)
sum-staggers_rising y hi (z ∷ zs) (le, h) = ground (arith, sum-staggers_rising z hi zs h)

-- The staggers of times that are put in order lead from the least to the greatest.
pub sum-staggers :
    (x : ℕ) (xs : List ℕ) → least x xs + sum (staggers (sorted (x ∷ xs))) ≡ greatest x xs
unfolding Sorts
sum-staggers x xs =
    let (ys, e, h) = sorted-Sorts x xs in
    rw e (sum-staggers_rising (least x xs) (greatest x xs) ys h)

staggers-positive : (l : List ℕ) → All (λ n. 0 < n) (staggers l)
unfolding staggers
staggers-positive [] = tt
staggers-positive (x ∷ []) = tt
staggers-positive (x ∷ y ∷ ys) = elim (Bool-cases (ltb 0 (y - x))) [
  | inl apart ↦ rw apart (ground arith, staggers-positive (y ∷ ys))
  | inr same ↦ rw same (staggers-positive (y ∷ ys))
]

-- The stop times of the first phase, which `analyze_upgrade` goes by.
abbrev pub stop_times : List AgentInfo → List ℕ
stop_times agents = collect (λ a. a.daemon_0_stop_s) agents

-- The average of the staggers, where there are any.
unfoldable pub IsMean : (D : Float) → List ℕ → Option D.F → Type 0
IsMean D [] avg = avg ≡ none
IsMean D (x ∷ xs) avg = avg ≡ some (D.div (D.of_ℕ (sum (x ∷ xs))) (D.of_ℕ (length (x ∷ xs))))

average-IsMean : (D : Float) (xs : List ℕ) → IsMean D xs (average D xs)
unfolding IsMean average
average-IsMean D [] = refl
average-IsMean D (x ∷ xs) = refl

-- The steps lead from the first to the last stop, none is 0, and the analysis reports their least,
-- greatest and average.
abbrev pub AreStaggers : (D : Float) → ℕ → ℕ → List ℕ → UpgradeInfo D → Type 0
AreStaggers D lo hi steps info =
    (lo + sum steps ≡ hi)
    × All (λ n. 0 < n) steps
    × IsSpan info.min_stagger_s info.max_stagger_s steps
    × IsMean D steps info.avg_stagger_s

-- Where an agent has a stop time, the reported start of the upgrade is the least stop time, and
-- some steps, none of them 0, lead from it to the greatest; the reported least, greatest and
-- average stagger are those of these steps, or missing where there is none.
pub analyze_upgrade-window :
    (D : Float) (agents : List AgentInfo) (total x : ℕ) (xs : List ℕ)
    → stop_times agents ≡ x ∷ xs
    → (lo : ℕ) × (hi : ℕ) × (steps : List ℕ) × ((analyze_upgrade D agents total).upgrade_start_s
        ≡ some lo)
      × AreExtremes lo hi (stop_times agents)
      × AreStaggers D lo hi steps (analyze_upgrade D agents total)
unfolding analyze_upgrade min_of
analyze_upgrade-window D agents total x xs e =
    let steps = staggers (sorted (stop_times agents)) in
    (
      least x xs,
      greatest x xs,
      steps,
      rw e refl,
      rw e (least-greatest-AreExtremes x xs),
      (
        rw e (sum-staggers x xs),
        staggers-positive (sorted (stop_times agents)),
        min_of-max_of-IsSpan steps,
        average-IsMean D steps,
      ),
    )

-- ===== src/Float.antt =====
-- Python's floats, which the program uses through `+ * /`, comparisons, `float()` and `int()`. The
-- model knows of them what IEEE-754 doubles promise: whole numbers up to 2 ^ 53 are exact. Values
-- are finite and not negative.
pub mod Ratio
use zano_shadow_sim.Base.{ℕ, ◌+◌, ◌*◌, ◌≤◌, ◌^◌, ◌≡◌, Bool, true, List, all_digits, value}

pub record Float : Type 1 where
  pub F : Type 0
  -- the float of an int
  pub of_ℕ : ℕ → F
  -- `float(s)`
  pub parse : List ℕ → F
  pub add : F → F → F
  pub mul : F → F → F
  pub div : F → F → F
  -- `x // y`
  pub floor_div : F → F → F
  -- `int(x)`, which drops the fraction
  pub to_int : F → ℕ
  pub le : F → F → Bool
  pub lt : F → F → Bool

-- Whole numbers up to 2 ^ 53 are represented exactly, and so are their sums and products there.
pub record IsExact (D : Float) : Type 0 where
  pub to_int-of_ℕ : (n : ℕ) → n ≤ 2 ^ 53 → D.to_int (D.of_ℕ n) ≡ n
  pub add-of_ℕ : (a b : ℕ) → a + b ≤ 2 ^ 53 → D.add (D.of_ℕ a) (D.of_ℕ b) ≡ D.of_ℕ (a + b)
  pub mul-of_ℕ : (a b : ℕ) → a * b ≤ 2 ^ 53 → D.mul (D.of_ℕ a) (D.of_ℕ b) ≡ D.of_ℕ (a * b)
  pub parse_digits :
      (s : List ℕ) → all_digits s ≡ true → value s ≤ 2 ^ 53 → D.parse s ≡ D.of_ℕ (value s)

-- ===== src/Distributor/Run/Rotation.antt =====
-- The batches of the funding cycle: `_run_funding_cycle` of agents/miner_distributor/agent.py.
use zano_shadow_sim.Base.{
  ℕ, zero, suc, ◌+◌, ◌%◌, ◌<◌, ◌≡◌, refl, Option, none, some, List, ◌++◌, String, arith, ap, sym,
  ◌∙◌, length, get_elem?, get_elem?-of_lt,
}
use mathlib.Core.Path.{ap₂}
use native.Mathlib.Nat.{mod-add-mod, mod-mod, mod-lt}
use zano_shadow_sim.Distributor.Run.Cycle.{with_entry, wrap_around}

with_entry-append :
    (o : Option String) (xs ys : List String) → with_entry o (xs ++ ys) ≡ with_entry o xs ++ ys
unfolding with_entry
with_entry-append none xs ys = refl
with_entry-append (some r) xs ys = refl

module _ (recipients : List String) where
  wrap_around-append :
      (m n start : ℕ)
      → wrap_around recipients start (m + n)
        ≡ wrap_around recipients start m ++ wrap_around recipients (start + m) n
  unfolding wrap_around
  wrap_around-append zero n start = ap₂ (wrap_around recipients) (omega arith) (omega arith)
  wrap_around-append (suc m) n start =
      let entry = get_elem? recipients (start % length recipients) in
      ap (wrap_around recipients start) (suc-add m n)
      ∙ ap (with_entry entry) (
          wrap_around-append m n (start + 1)
          ∙ ap (λ (k : ℕ). wrap_around recipients (start + 1) m ++ wrap_around recipients k n)
              (omega arith))
      ∙ with_entry-append entry _ _
    where
      suc-add : (m n : ℕ) → suc m + n ≡ suc (m + n)
      suc-add m n = omega arith

  wrap_around_congruent :
      (n i j : ℕ)
      → i % length recipients ≡ j % length recipients
      → wrap_around recipients i n ≡ wrap_around recipients j n
  unfolding wrap_around
  wrap_around_congruent zero i j h = refl
  wrap_around_congruent (suc n) i j h =
      ap₂ with_entry (ap (get_elem? recipients) h) (wrap_around_congruent n (i + 1) (j + 1) next)
    where
      next : (i + 1) % length recipients ≡ (j + 1) % length recipients
      next =
          sym (mod-add-mod i (length recipients) 1)
          ∙ ap (λ (k : ℕ). (k + 1) % length recipients) h
          ∙ mod-add-mod j (length recipients) 1

  -- Two batches of the funding cycle in a row, the second from the index that the first leaves,
  -- are as one batch of both sizes.
  pub wrap_around-turns :
      (size n start : ℕ)
      → wrap_around recipients start size
          ++ wrap_around recipients ((start + size) % length recipients) n
        ≡ wrap_around recipients start (size + n)
  wrap_around-turns size n start =
      ap (λ t. wrap_around recipients start size ++ t)
        (wrap_around_congruent n ((start + size) % length recipients) (start + size)
          (mod-mod (start + size) (length recipients)))
      ∙ sym (wrap_around-append size n start)

  -- A batch from a list that is not empty has the size that was asked for.
  pub length-wrap_around :
      (n start : ℕ) → 0 < length recipients → length (wrap_around recipients start n) ≡ n
  unfolding wrap_around with_entry
  length-wrap_around zero start h = refl
  length-wrap_around (suc n) start h =
      let (r, e) = get_elem?-of_lt recipients (start % length recipients) (mod-lt start h) in
      ap (λ o. length (with_entry o (wrap_around recipients (start + 1) n))) e
      ∙ ap suc (length-wrap_around n (start + 1) h)

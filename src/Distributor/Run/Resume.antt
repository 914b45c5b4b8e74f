-- ===== src/Distributor/Run/Resume.antt =====
-- The state that the agent keeps between its turns, and takes up again from its status file.
use zano_shadow_sim.Base.{
  ◌≡◌, refl, inl, inr, Bool, true, false, ◌||◌, List, [], ◌∷◌, String, arith, ap, sym, ◌∙◌,
  contains, contains-nil, contains-cons, contains-add, add, update, sort_by, insert_sorted, str_eq,
  if◌then◌else◌, Bool-cases,
}
use Prim.Native.String.{compare}
use text.Mathlib.Text.{is_le}
use zano_shadow_sim.Base.Dict.{lookup}
use zano_shadow_sim.Float.{Float}
use zano_shadow_sim.Distributor.{Status, Books, Md}
use zano_shadow_sim.Distributor.Funding.{write_funding_status}
use zano_shadow_sim.Distributor.Funding.Bookkeeping.{IsConsistent}
use zano_shadow_sim.Distributor.Run.{read_funding_status, load_funding_progress}

contains-if :
    (x : String) (b : Bool) (s t : List String) (c : Bool)
    → contains x s ≡ c
    → contains x t ≡ c
    → contains x (if b then s else t) ≡ c
contains-if x true s t c h k = h
contains-if x false s t c h k = k

contains-insert_sorted :
    (x y : String) (s : List String)
    → contains x (insert_sorted (λ (t : String). t) y s) ≡ (str_eq x y || contains x s)
unfolding insert_sorted
contains-insert_sorted x y [] = contains-cons x y []
contains-insert_sorted x y (z ∷ s) =
    contains-if x (is_le (compare y z)) (y ∷ z ∷ s) (z ∷ insert_sorted (λ (t : String). t) y s)
      (str_eq x y || contains x (z ∷ s)) (contains-cons x y (z ∷ s))
      (ground (
        arith,
        contains-cons x z (insert_sorted (λ (t : String). t) y s),
        contains-cons x z s,
        contains-insert_sorted x y s,
      ))

contains-sort_by :
    (x : String) (s : List String) → contains x (sort_by (λ (t : String). t) s) ≡ contains x s
unfolding sort_by
contains-sort_by x [] = refl
contains-sort_by x (y ∷ s) = ground (
  arith,
  contains-insert_sorted x y (sort_by (λ (t : String). t) s),
  contains-sort_by x s,
  contains-cons x y s,
)

contains-update :
    (x : String) (xs s : List String) → contains x (update xs s) ≡ (contains x xs || contains x s)
unfolding update
contains-update x [] s = ground (arith, contains-nil x)
contains-update x (y ∷ xs) s =
    ground (arith, contains-update x xs (add y s), contains-add x y s, contains-cons x y xs)

-- The same members in each set, and the same counts.
record IsSame (b b' : Books) : Type 0 where
  pub same_funded : (x : String) → contains x b'.funded ≡ contains x b.funded
  pub same_failed : (x : String) → contains x b'.failed ≡ contains x b.failed
  pub same_permanent : (x : String) → contains x b'.permanent ≡ contains x b.permanent
  pub same_retries : b'.retries ≡ b.retries

IsConsistent-of_IsSame : {b b' : Books} → IsSame b b' → IsConsistent b → IsConsistent b'
IsConsistent-of_IsSame {b} {b'} s c = record {
  given_up_unfunded =
      λ x h. ground (arith, c.given_up_unfunded x, s.same_permanent x, s.same_funded x);
  given_up_not_failed =
      λ x h. ground (arith, c.given_up_not_failed x, s.same_permanent x, s.same_failed x);
  failed_unfunded = λ x h. ground (arith, c.failed_unfunded x, s.same_failed x, s.same_funded x);
  counts = λ x n h k.
      c.counts x n (ap (lookup x) (sym s.same_retries) ∙ h) (sym (s.same_permanent x) ∙ k);
}

-- The books that a turn starts with.
unfoldable pub resumed : Books → Status → Books
resumed b s = record b {
  funded = update s.funded_recipients [];
  failed = update s.failed_recipients [];
  permanent = update s.permanently_failed b.permanent;
}

resumed-IsSame : (b : Books) (s : Status) → IsSame (resumed b s) (resumed (resumed b s) s)
unfolding resumed
resumed-IsSame b s = record {
  same_funded = λ x. refl;
  same_failed = λ x. refl;
  same_permanent = λ x. ground (
    arith,
    contains-update x s.permanently_failed (update s.permanently_failed b.permanent),
    contains-update x s.permanently_failed b.permanent,
  );
  same_retries = refl;
}

-- What is kept between the turns: the status file with the given-up recipients and the counts in
-- memory give consistent books.
unfoldable pub IsSound : {D : Float} → Md D → Type 0
IsSound md = IsConsistent (resumed md.books (read_funding_status md))

module _ {D : Float} where
  -- What is written is read again.
  pub write_funding_status-IsSound :
      (completed : Bool) (md : Md D)
      → IsConsistent md.books
      → IsSound (write_funding_status completed md)
  unfolding IsSound resumed write_funding_status read_funding_status
  write_funding_status-IsSound completed md c =
      IsConsistent-of_IsSame
        (record {
          same_funded = λ x. ground (arith, contains-update x md.books.funded [], contains-nil x);
          same_failed = λ x. ground (arith, contains-update x md.books.failed [], contains-nil x);
          same_permanent = λ x. ground (
            arith,
            contains-update x (sort_by (λ (s : String). s) md.books.permanent) md.books.permanent,
            contains-sort_by x md.books.permanent,
          );
          same_retries = refl;
        })
        c

  -- A turn that goes on starts with consistent books, and what it has read it can read again.
  pub load_funding_progress-IsSound :
      (md : Md D)
      → IsSound md
      → IsSound (load_funding_progress md).1
        × ((load_funding_progress md).0 ≡ true → IsConsistent (load_funding_progress md).1.books)
  unfolding IsSound load_funding_progress read_funding_status resumed
  load_funding_progress-IsSound md c =
      let s = read_funding_status md in
      elim (Bool-cases s.completed) [
        | inl done ↦ rw done (c, (λ h. cc))
        | inr open_status ↦
            rw open_status (IsConsistent-of_IsSame (resumed-IsSame md.books s) c, (λ h. c))
      ]

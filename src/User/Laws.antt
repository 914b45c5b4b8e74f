-- ===== src/User/Laws.antt =====
-- When a regular user pays.
use mathlib.Core.Path.{subst}
use zano_shadow_sim.Base.{
  ℕ, ◌+◌, ◌-◌, ◌<◌, ◌≤◌, min, Bool, true, false, ◌≡◌, refl, ◌∙◌, ◌⊎◌, inl, inr, Option, none, some,
  List, [], ◌∷◌, String, arith, ltb, Result, ok, err, All, Bool-cases, lt→ltb,
}
use zano_shadow_sim.Float.{Float}
use zano_shadow_sim.User.{
  User, setup_activity, Transfer, Turn, TurnOutcome, maybe_wait, ensure_synced, periodic_refresh,
  on_success, on_error, maybe_send, finish_turn, transact, after_sync, after_wait,
  run_user_iteration, logged, run_turns,
}

-- A pause that ends no later than the activity starts.
pub run_user_iteration-waits :
    (D : Float) (t : Turn D) (u : User)
    → u.waiting_for_activity_start ≡ true
    → t.now < u.activity_start_time
    → (pause : ℕ) × (run_user_iteration D t u ≡ (pause, u, none))
      × (0 < pause)
      × (pause ≤ 300)
      × (t.now + pause ≤ u.activity_start_time)
unfolding run_user_iteration maybe_wait after_wait
run_user_iteration-waits D t u waits early = (
  min 300 (u.activity_start_time - t.now),
  rw (waits, lt→ltb t.now u.activity_start_time early) refl,
  omega arith,
  omega arith,
  omega arith,
)

-- The start of the activity stays, and it is over where the user waits no more or has paid.
IsTimely : ℕ → ℕ → TurnOutcome → Type 0
IsTimely start now (pause, u, sent) =
    (u.activity_start_time ≡ start)
    × ((u.waiting_for_activity_start ≡ true) ⊎ (start ≤ now))
    × ((sent ≡ none) ⊎ (start ≤ now))

module _ (D : Float) where
  start-periodic_refresh :
      (now : ℕ) (r : Result ℕ) (u : User)
      → (periodic_refresh now r u).activity_start_time ≡ u.activity_start_time
  unfolding periodic_refresh
  start-periodic_refresh now (err e) u = refl
  start-periodic_refresh now (ok n) u = ground arith

  start-on_error :
      (e : String) (recovers : Bool) (now : ℕ) (u : User)
      → (on_error e recovers now u).1.activity_start_time ≡ u.activity_start_time
  unfolding on_error
  start-on_error e recovers now u = ground arith

  finish_turn-IsTimely :
      (start : ℕ) (t : Turn D) (u : User) (r : Result (Option Transfer))
      → u.activity_start_time ≡ start
      → start ≤ t.now
      → IsTimely start t.now (finish_turn D t u r)
  unfolding finish_turn IsTimely on_success
  finish_turn-IsTimely start t u (ok sent) e le = (e, inr le, inr le)
  finish_turn-IsTimely start t u (err x) e le =
      (start-on_error x t.recovers t.now u ∙ e, inr le, inr le)

  after_sync-IsTimely :
      (start : ℕ) (t : Turn D) (o : Option ℕ) (u : User)
      → u.activity_start_time ≡ start
      → start ≤ t.now
      → IsTimely start t.now (after_sync D t (o, u))
  unfolding after_sync transact IsTimely
  after_sync-IsTimely start t (some pause) u e le = (e, inr le, inr le)
  after_sync-IsTimely start t none u e le =
      finish_turn-IsTimely start t (periodic_refresh t.now t.refresh u)
        (maybe_send D t (periodic_refresh t.now t.refresh u))
        (start-periodic_refresh t.now t.refresh u ∙ e) le

  start-ensure_synced :
      (now : ℕ) (r : Result ℕ) (u : User)
      → (ensure_synced now r u).1.activity_start_time ≡ u.activity_start_time
  unfolding ensure_synced
  start-ensure_synced now (ok h) u = ground arith
  start-ensure_synced now (err e) u = ground arith

  active-IsTimely :
      (start : ℕ) (t : Turn D) (u : User)
      → u.activity_start_time ≡ start
      → start ≤ t.now
      → IsTimely start t.now (after_wait D t (none, u))
  unfolding after_wait
  active-IsTimely start t u e le =
      after_sync-IsTimely start t (ensure_synced t.now t.sync u).0 (ensure_synced t.now t.sync u).1
        (start-ensure_synced t.now t.sync u ∙ e) le

  run_user_iteration-IsTimely :
      (t : Turn D) (u : User)
      → ((u.waiting_for_activity_start ≡ true) ⊎ (u.activity_start_time ≤ t.now))
      → IsTimely u.activity_start_time t.now (run_user_iteration D t u)
  unfolding run_user_iteration maybe_wait
  run_user_iteration-IsTimely t u h = elim (Bool-cases u.waiting_for_activity_start) [
    | inl waits ↦ elim (Bool-cases (ltb t.now u.activity_start_time)) [
      | inl early ↦ rw (waits, early) (unfold IsTimely after_wait in (refl, inl refl, inl refl))
      | inr late ↦
          rw (waits, late)
            (active-IsTimely u.activity_start_time t
              (record u { waiting_for_activity_start = false; wallet_synced = false }) refl
              (ground arith))
    ]
    | inr runs ↦ rw runs (
        active-IsTimely u.activity_start_time t (record u { waiting_for_activity_start = false })
          refl (ground arith))
  ]

  -- The clock does not go back.
  unfoldable pub IsOrdered : ℕ → List (Turn D) → Type 0
  IsOrdered now [] = Unit
  IsOrdered now (t ∷ turns) = (now ≤ t.now) × IsOrdered t.now turns

  -- Still waiting, or at a time when the activity has started.
  abbrev pub IsDue : ℕ → User → Type 0
  IsDue now u = (u.waiting_for_activity_start ≡ true) ⊎ (u.activity_start_time ≤ now)

  setup_activity-IsDue : (n now : ℕ) (u : User) → IsDue now (setup_activity n now u)
  unfolding setup_activity
  setup_activity-IsDue n now u = ground arith

  abbrev pub PaysAfter : ℕ → ℕ × Transfer → Type 0
  PaysAfter start (time, transfer) = start ≤ time

  IsDue-later : (now : ℕ) (u : User) (t : Turn D) → IsDue now u → now ≤ t.now → IsDue t.now u
  IsDue-later now u t (inl waits) le = inl waits
  IsDue-later now u t (inr h) le = inr (omega (arith, h, le))

  IsDue-after : (start now : ℕ) (o : TurnOutcome) → IsTimely start now o → IsDue now o.1
  unfolding IsTimely
  IsDue-after start now o (e, inl waits, paid) = inl waits
  IsDue-after start now o (e, inr le, paid) = inr (rw e le)

  PaysAfter-logged :
      (start now : ℕ) (sent : Option Transfer) (rest : List (ℕ × Transfer))
      → ((sent ≡ none) ⊎ (start ≤ now))
      → All (PaysAfter start) rest
      → All (PaysAfter start) (logged now sent rest)
  PaysAfter-logged start now none rest h later = later
  PaysAfter-logged start now (some transfer) rest (inl nothing) later = absurd cc
  PaysAfter-logged start now (some transfer) rest (inr le) later = (le, later)

  paid-IsTimely :
      (start now : ℕ) (o : TurnOutcome) → IsTimely start now o → (o.2 ≡ none) ⊎ (start ≤ now)
  unfolding IsTimely
  paid-IsTimely start now o (e, due, paid) = paid

  start-IsTimely :
      (start now : ℕ) (o : TurnOutcome) → IsTimely start now o → o.1.activity_start_time ≡ start
  unfolding IsTimely
  start-IsTimely start now o (e, due, paid) = e

  run_turns-PaysAfter_from :
      (turns : List (Turn D)) (now : ℕ) (u : User)
      → IsDue now u
      → IsOrdered now turns
      → All (PaysAfter u.activity_start_time) (run_turns D turns u)
  unfolding run_turns IsOrdered
  run_turns-PaysAfter_from [] now u due ordered = tt
  run_turns-PaysAfter_from (t ∷ turns) now u due (le, ordered) =
      let o : TurnOutcome = run_user_iteration D t u in
      let timely = run_user_iteration-IsTimely t u (IsDue-later now u t due le) in
      let later : All (PaysAfter u.activity_start_time) (run_turns D turns o.1) =
        subst (λ s. All (PaysAfter s) (run_turns D turns o.1))
          (start-IsTimely u.activity_start_time t.now o timely)
          (run_turns-PaysAfter_from turns t.now o.1
            (IsDue-after u.activity_start_time t.now o timely) ordered) in
      PaysAfter-logged u.activity_start_time t.now o.2 (run_turns D turns o.1)
        (paid-IsTimely u.activity_start_time t.now o timely) later

  -- Whatever the wallet, the shared files and the random draws are, as long as the clock does
  -- not go back, none of a user's iterations after its setup asks for a transfer before its
  -- activity starts.
  pub run_turns-PaysAfter :
      (n now : ℕ) (u : User) (turns : List (Turn D))
      → IsOrdered now turns
      → All
          (PaysAfter (setup_activity n now u).activity_start_time)
          (run_turns D turns (setup_activity n now u))
  run_turns-PaysAfter n now u turns ordered =
      run_turns-PaysAfter_from turns now (setup_activity n now u) (setup_activity-IsDue n now u)
        ordered

-- ===== src/Shared/Serial.antt =====
-- Interleaved calls against the same calls one after the other, and what appended items become.
use Prim.Native.Nat.{ℕ}
use mathlib.Core.List.{append-nil, append_assoc}
use zano_shadow_sim.Base.{
  ◌≡◌, refl, sym, ap, ◌∙◌, none, some, List, [], ◌∷◌, ◌++◌, map, ok, bind-ok, ok-injective,
}
use zano_shadow_sim.Shared.Json.{Json, Jsons, to_list, snoc, to_list-snoc}
use zano_shadow_sim.Shared.Jobs.{
  Format, File, Job, append, work, replay, list_of, current_list, read_shared_state,
  read_shared_list,
}
use zano_shadow_sim.Shared.Steps.{Store, Phase, System, quiet, Move, Reach, start, later, pick}
use zano_shadow_sim.Shared.Invariant.{Prepared, Inv, Inv-quiet, Reach-Inv}

module _ (F : Format) where
  replay-append :
      (jobs more : List Job) (f g : File F)
      → replay F jobs f ≡ ok g
      → replay F (jobs ++ more) f ≡ replay F more g
  unfolding replay
  replay-append [] more f g h = rw (ok-injective f g h) refl
  replay-append (job ∷ jobs) more f g h =
      let (content, e, rest) = bind-ok (work F job f) (λ c. replay F jobs (some c)) g h in
      rw e (replay-append jobs more (some content) g rest)

  -- A step makes its call visible as the call done at once, or leaves the file.
  Move-replays :
      {i : ℕ} {s t : Store F} {p q : Phase F} {jobs : List Job}
      → Move i s p t q jobs
      → Prepared s p
      → replay F jobs s.file ≡ ok t.file
  unfolding replay
  Move-replays (Move.call job) h = refl
  Move-replays (Move.acquire free) h = refl
  Move-replays (Move.compute e) h = refl
  Move-replays (Move.refuse e) h = refl
  Move-replays Move.read_fails h = refl
  Move-replays Move.open_temp h = refl
  Move-replays Move.open_fails h = refl
  Move-replays Move.dump h = refl
  Move-replays (Move.dump_fails part) h = refl
  Move-replays (Move.rename e) h = rw h.0 (ap (λ x. ok x) (sym h.1 ∙ e))
  Move-replays Move.rename_fails h = refl
  Move-replays Move.unlock h = refl

  Reach-replays_from :
      {s t : System F} {jobs : List Job}
      → Inv s.store s.phases
      → Reach s t jobs
      → replay F jobs s.store.file ≡ ok t.store.file
  unfolding replay
  Reach-replays_from inv start = refl
  Reach-replays_from inv (later {t = t} {jobs = jobs} {more = more} r (pick i mv)) =
      replay-append jobs more _ t.store.file (Reach-replays_from inv r)
      ∙ Move-replays mv ((Reach-Inv inv r).prepared i)

  -- Whatever steps the agents interleave, failures included, the file is at every moment the one
  -- that the calls whose rename has happened make of the first file when each is done at once,
  -- in the order of the renames.
  pub Reach-replays :
      {file temp : File F} {t : System F} {jobs : List Job}
      → Reach (quiet file temp) t jobs
      → replay F jobs file ≡ ok t.store.file
  Reach-replays {file} {temp} r = Reach-replays_from (Inv-quiet file temp) r

module _ (F : Format)
    (reads_back : (indent : ℕ) (v : Json) → F.loads (F.dumps indent v) ≡ ok v) where
  read-current :
      (f : File F) (vs : Jsons) → current_list F f ≡ ok vs → read_shared_list F f ≡ to_list vs
  unfolding current_list read_shared_list read_shared_state list_of
  read-current none vs h = ap to_list (ok-injective Jsons.nil vs h)
  read-current (some content) vs h =
      let (v, e, q) = bind-ok (F.loads content) (λ v. ok (list_of v)) vs h in
      rw (read_shared_list, read_shared_state, e) (ap to_list (ok-injective (list_of v) vs q))

  read-dumped : (vs : Jsons) → read_shared_list F (some (F.dumps 2 (Json.array vs))) ≡ to_list vs
  unfolding read_shared_list read_shared_state list_of
  read-dumped vs = rw (read_shared_list, read_shared_state, reads_back 2 (Json.array vs)) refl

  replay-appends :
      (items : List Json) (f g : File F)
      → replay F (map append items) f ≡ ok g
      → read_shared_list F g ≡ read_shared_list F f ++ items
  unfolding replay work
  replay-appends [] f g h = rw (ok-injective f g h) (sym (append-nil _))
  replay-appends (item ∷ items) f g h =
      let (content, e, rest) =
        bind-ok (work F (append item) f) (λ c. replay F (map append items) (some c)) g h in
      let (vs, current, made) =
        bind-ok (current_list F f) (λ vs. ok (F.dumps 2 (Json.array (snoc vs item)))) content e in
      replay-appends items (some content) g rest
      ∙ ap (λ l. l ++ items)
          (ap (λ c. read_shared_list F (some c)) (sym (ok-injective _ content made))
            ∙ read-dumped (snoc vs item)
            ∙ to_list-snoc vs item
            ∙ ap (λ l. l ++ item ∷ []) (sym (read-current f vs current)))
      ∙ append_assoc (read_shared_list F f) (item ∷ []) items

  -- Where a printed value reads back as itself and every call whose rename has happened is an
  -- append, the shared list is at every moment the first list followed by the appended items, in
  -- the order of the renames.
  pub read_shared_list-appends :
      {file temp : File F} {t : System F} (items : List Json)
      → Reach (quiet file temp) t (map append items)
      → read_shared_list F t.store.file ≡ read_shared_list F file ++ items
  read_shared_list-appends {file} {t = t} items r =
      replay-appends items file t.store.file (Reach-replays F r)

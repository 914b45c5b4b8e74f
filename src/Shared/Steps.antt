-- ===== src/Shared/Steps.antt =====
-- Agents that call `write_shared_state` (with its lock), `append_shared_list` and `_register_self` of
-- agents/base_agent.py on one file, interleaved in any order, a shared access at a time.
use Prim.Native.Nat.{ℕ}
use zano_shadow_sim.Base.{
  Bool, true, false, ◌≡◌, Option, none, some, List, [], ◌∷◌, ◌++◌, String, ok, err, ◌==◌,
  if◌then◌else◌,
}
use zano_shadow_sim.Shared.Jobs.{Format, File, Job, work}

module _ (F : Format) where
  -- The file, the temporary file beside it, and who holds the lock on the lock file.
  pub record Store : Type 0 where
    pub file : File F
    pub temp : File F
    pub lock : Option ℕ

  -- Where an agent stands in its call, with what it has computed by then.
  pub data Phase : Type 0 where
    idle : Phase
    waiting : (job : Job) → Phase  -- before `flock(lock_f, LOCK_EX)`
    holding : (job : Job) → Phase  -- the start of the inner `try`
    ready : (job : Job) → (content : F.Text) → Phase  -- before `open(temp_filepath, 'w')`
    writing : (job : Job) → (content : F.Text) → Phase  -- the temporary file is open, and empty
    written : (job : Job) → (content : F.Text) → Phase  -- before `rename`
    leaving : Phase  -- the `finally`

  pub record System : Type 0 where
    pub store : Store
    pub phases : ℕ → Phase

module _ {F : Format} where
  abbrev pub critical : Phase F → Bool
  critical Phase.idle = false
  critical (Phase.waiting job) = false
  critical _ = true

  abbrev pub set_at : ℕ → Phase F → (ℕ → Phase F) → ℕ → Phase F
  set_at i p phases j = if i == j then p else phases j

  -- Every agent is between two calls, and the lock is free.
  abbrev pub quiet : File F → File F → System F
  quiet file temp = record {
    store = record { file = file; temp = temp; lock = none };
    phases = λ _. Phase.idle;
  }

  -- One step of agent `i`. The last argument lists the call that the step makes visible. A read, a
  -- write or a rename may fail with an OSError; a temporary file is left as the failure leaves it.
  pub data Move (i : ℕ) (s : Store F) : Phase F → Store F → Phase F → List Job → Type 0 where
    call : (job : Job) → Move i s Phase.idle s (Phase.waiting job) []
    acquire :
        {job : Job}
        → s.lock ≡ none
        → Move i s (Phase.waiting job) (record s { lock = some i }) (Phase.holding job) []
    compute :
        {job : Job} {content : F.Text}
        → work F job s.file ≡ ok content
        → Move i s (Phase.holding job) s (Phase.ready job content) []
    refuse :
        {job : Job} {e : String}
        → work F job s.file ≡ err e
        → Move i s (Phase.holding job) s Phase.leaving []
    read_fails : {job : Job} → Move i s (Phase.holding job) s Phase.leaving []
    open_temp :
        {job : Job} {content : F.Text}
        → Move i s
            (Phase.ready job content)
            (record s { temp = some F.no_text })
            (Phase.writing job content)
            []
    open_fails :
        {job : Job} {content : F.Text} → Move i s (Phase.ready job content) s Phase.leaving []
    dump :
        {job : Job} {content : F.Text}
        → Move i s
            (Phase.writing job content)
            (record s { temp = some content })
            (Phase.written job content)
            []
    dump_fails :
        {job : Job} {content : F.Text} (part : F.Text)
        → Move i s (Phase.writing job content) (record s { temp = some part }) Phase.leaving []
    rename :
        {job : Job} {content temporary : F.Text}
        → s.temp ≡ some temporary
        → Move i s
            (Phase.written job content)
            (record s { file = some temporary; temp = none })
            Phase.leaving
            (job ∷ [])
    rename_fails :
        {job : Job} {content : F.Text} → Move i s (Phase.written job content) s Phase.leaving []
    unlock : Move i s Phase.leaving (record s { lock = none }) Phase.idle []

  pub data Step (s : System F) : System F → List Job → Type 0 where
    pick :
        (i : ℕ) {t : Store F} {p : Phase F} {jobs : List Job}
        → Move i s.store (s.phases i) t p jobs
        → Step s (record { store = t; phases = set_at i p s.phases }) jobs

  -- The states that steps lead to, with the calls made visible on the way, in order.
  pub data Reach (s : System F) : System F → List Job → Type 0 where
    start : Reach s s []
    later :
        {t u : System F} {jobs more : List Job}
        → Reach s t jobs
        → Step t u more
        → Reach s u (jobs ++ more)

-- ===== src/Shared/Jobs.antt =====
-- What a call of `write_shared_state`, `append_shared_list` or `_register_self` makes of the text of
-- its file while it holds the lock, and what the readers of agents/base_agent.py return.
use zano_shadow_sim.Base.{
  ℕ, Bool, Option, none, some, List, [], ◌∷◌, Result, ok, err, ◌>>=◌, if◌then◌else◌,
}
use zano_shadow_sim.Shared.Json.{Json, Jsons, Members, to_list, snoc}
use zano_shadow_sim.Shared.Registration.{Registrant, register}

-- The text of files, and Python's json module: it reads a text and, with an indentation, prints one.
pub record Format : Type 1 where
  pub Text : Type 0
  pub no_text : Text
  pub is_blank : Text → Bool  -- `not content.strip()`
  pub loads : Text → Result Json
  pub dumps : ℕ → Json → Text

-- A file's text, or no file.
abbrev pub File : Format → Type 0
File F = Option F.Text

pub data Job : Type 0 where
  write : Json → Job
  append : Json → Job
  enrol : Registrant → Job

-- `data if isinstance(data, list) else []`
unfoldable pub list_of : Json → Jsons
list_of (Json.array vs) = vs
list_of _ = Jsons.nil

-- `{"agents": []}`
abbrev pub no_agents : Json
no_agents = Json.object (Members.member "agents" (Json.array Jsons.nil) Members.empty)

module _ (F : Format) where
  unfoldable pub current_list : File F → Result Jsons
  unfolding list_of
  current_list none = ok Jsons.nil
  current_list (some content) = do loaded ← F.loads content; ok (list_of loaded)

  unfoldable pub current_registry : File F → Result Json
  current_registry none = ok no_agents
  current_registry (some content) = if F.is_blank content then ok no_agents else F.loads content

  -- The text that the call writes, or the exception that ends it.
  unfoldable pub work : Job → File F → Result F.Text
  unfolding current_list current_registry
  work (write loaded) file = ok (F.dumps 2 loaded)
  work (append item) file = do
    loaded ← current_list file
    ok (F.dumps 2 (Json.array (snoc loaded item)))
  work (enrol agent) file = do
    loaded ← current_registry file
    registry ← register agent loaded
    ok (F.dumps 4 registry)

  -- `read_shared_state` where the file can be opened; corrupt content is `None` as well.
  unfoldable pub read_shared_state : File F → Option Json
  read_shared_state none = none
  read_shared_state (some content) = elim (F.loads content) [
    | ok loaded ↦ some loaded
    | err e ↦ none
  ]

  unfoldable pub read_shared_list : File F → List Json
  unfolding read_shared_state list_of to_list
  read_shared_list file = elim (read_shared_state file) [
    | none ↦ []
    | some loaded ↦ to_list (list_of loaded)
  ]

  -- The calls one after the other, each on the file that the one before it left.
  unfoldable pub replay : List Job → File F → Result (File F)
  unfolding work
  replay [] file = ok file
  replay (job ∷ jobs) file = do content ← work job file; replay jobs (some content)

-- ===== src/Wl/Context/Model.antt =====
-- What a wl::Context of p1/wl.cpp is for: a session that keeps the words of the loaded file as a list.
use cs564_projects.Prelude.{
  ℕ, ◌-◌, ◌^◌, ◌<◌, get_elem?, Bool, true, false, List, [], ◌∷◌, Option, none, some, ◌≡◌, length,
  if◌then◌else◌,
}
use cs564_projects.Prelude.Int.{negsuc}
use cs564_projects.Wl.Command.{
  Op, op_empty, op_end, op_new, op_load, op_locate, op_invalid, Command,
}
use cs564_projects.Wl.Node.{empty}
use cs564_projects.Wl.Node.Spec.{below, IsTree}
use cs564_projects.Wl.Dictionary.{Files}
use cs564_projects.Wl.Dictionary.Load.{positions, words_in, any_late}
use cs564_projects.Wl.Context.{Context, Line, invalid_command, no_matching_entry, number}

-- The words of the loaded file, whether a load is allowed without a `new`, and the operation before.
pub record Session : Type 0 where
  pub words : List (List ℕ)
  pub loadable : Bool
  pub prev : Op

-- A load is allowed on a loadable dictionary and right after a load.
abbrev pub may_load : Session → Bool
may_load s = elim (s.prev) [ op_load ↦ true | _ ↦ s.loadable ]

-- A file that cannot be opened leaves nothing loaded.
abbrev pub opened : Option (List ℕ) → Session
opened none = record { words = []; loadable = true; prev = op_load }
opened (some bytes) = record { words = words_in bytes; loadable = false; prev = op_load }

-- A `locate` prints the place of the occurrence among the words, where there is one.
abbrev pub session_step : Files → Op → Command → Session → Session × List Line
session_step files op_end command s = (record s { prev = op_end }, [])
session_step files op_new command s = (record { words = []; loadable = true; prev = op_new }, [])
session_step files op_load command s =
    if may_load s then (opened (files command.arg_1), []) else (s, invalid_command ∷ [])
session_step files op_locate command s = (
  record s { prev = op_locate },
  elim (get_elem? (positions command.arg_1 0 s.words) (command.arg_2 - 1)) [
    | none ↦ no_matching_entry ∷ []
    | some place ↦ number place ∷ []
  ],
)
session_step files op_invalid command s = (s, invalid_command ∷ [])
session_step files op_empty command s = (s, [])

-- The tree of a context holds the words of a session; an empty loadable dictionary has no words.
pub record Models (c : Context) (s : Session) : Type 0 where
  pub tree : IsTree c.dictionary.word_list
  pub holds : (u : List ℕ) → below c.dictionary.word_list u ≡ positions u 0 s.words
  pub loadable : c.dictionary.is_loadable ≡ s.loadable
  pub fresh : s.loadable ≡ true → c.dictionary.word_list ≡ empty
  pub prev : c.prev_ops ≡ s.prev
  pub quiet : c.result ≡ negsuc 1

-- Every file has less than 2 ^ 32 words and none that diverges late.
abbrev pub FilesFit : Files → Type 0
FilesFit files =
    (path bytes : List ℕ)
    → files path ≡ some bytes
    → (length (words_in bytes) < 2 ^ 32) × (any_late empty 0 (words_in bytes) ≡ false)

-- A `locate` names an occurrence, as every parsed one does. Other commands may be any.
abbrev pub IsProper : Op → Command → Type 0
IsProper op command = op ≡ op_locate → (0 < command.arg_2) × (command.arg_2 < 2 ^ 32)

-- What a step of the context comes to.
pub record Agrees (c : Context) (out : List Line) (next : Session × List Line) : Type 0 where
  pub models : Models c next.0
  pub prints : out ≡ next.1

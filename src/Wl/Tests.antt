-- ===== src/Wl/Tests.antt =====
-- Runs of the word locator of p1, and its theorems at concrete inputs.
use cs564_projects.Prelude.{
  ℕ, List, [], ◌∷◌, ◌++◌, map, Option, none, some, ◌≡◌, refl, arith, get_or,
}
use cs564_projects.Wl.Text.{parse}
use cs564_projects.Wl.Text.Runs.{lower, runs}
use cs564_projects.Wl.Text.Words.{parse-runs}
use cs564_projects.Wl.Node.{Node, prefix, empty, insert, search}
use cs564_projects.Wl.Node.Spec.{below, IsTree}
use cs564_projects.Wl.Node.Late.{diverges_late}
use cs564_projects.Wl.Node.Search.{search-below}
use cs564_projects.Wl.Node.Contract.{insert-IsTree, search-insert_lost}
use cs564_projects.Wl.Dictionary.{Dictionary, Files, create, load, locate}
use cs564_projects.Wl.Dictionary.Load.{positions, words_in, any_late, empty-IsTree}
use cs564_projects.Wl.Command
use cs564_projects.Wl.Command.{Command, op_locate, op_load}
use cs564_projects.Wl.Context
use cs564_projects.Wl.Context.{
  Context, execute, run, Line, invalid_command, no_matching_entry, number, report,
}

program : Unit {0}
unfolding insert search load locate runs parse lower run execute words_in positions any_late
    diverges_late below report Context.renew_after_load
program = tt

abbrev sing : List ℕ
sing = b's' ∷ b'i' ∷ b'n' ∷ b'g' ∷ []

abbrev song : List ℕ
song = b's' ∷ b'o' ∷ b'n' ∷ b'g' ∷ []

abbrev sitting : List ℕ
sitting = b's' ∷ b'i' ∷ b't' ∷ b't' ∷ b'i' ∷ b'n' ∷ b'g' ∷ []

abbrev sister : List ℕ
sister = b's' ∷ b'i' ∷ b's' ∷ b't' ∷ b'e' ∷ b'r' ∷ []

-- "It's a song, A SONG"
abbrev line : List ℕ
line =
    b'I' ∷ b't' ∷ 39 ∷ b's' ∷ 32 ∷ b'a' ∷ 32 ∷ b's' ∷ b'o' ∷ b'n' ∷ b'g' ∷ 44 ∷ 32 ∷ b'A' ∷ 32
    ∷ b'S' ∷ b'O' ∷ b'N' ∷ b'G' ∷ []

-- One file, whatever the path.
abbrev disk : Files
disk path = some line

abbrev one_word : Node
one_word = insert empty sing 1

abbrev two_words : Node
two_words = insert one_word song 2

one_word-IsTree : IsTree one_word
one_word-IsTree = (insert-IsTree empty sing 1 empty-IsTree).0

insert-IsTree_example : IsTree two_words × (prefix two_words ≡ prefix one_word)
insert-IsTree_example = insert-IsTree one_word song 2 one_word-IsTree

search-below_example : search two_words song 1 ≡ some (get_or (below two_words song) 0 0)
unfolding program
search-below_example =
    search-below two_words song 1 insert-IsTree_example.0 (omega arith) (omega arith)

search_runs : (search two_words song 1 ≡ some 2) × (search two_words song 2 ≡ some 0)
unfolding program
search_runs = (refl, refl)

-- The word is in the text, and is not found.
search-insert_lost_example : search (insert (insert empty sitting 1) sister 2) sister 1 ≡ some 0
unfolding program
search-insert_lost_example =
    search-insert_lost (insert empty sitting 1) sister 2 1
      (insert-IsTree empty sitting 1 empty-IsTree).0 (omega arith) (omega arith) refl

parse-runs_example : parse line [] ≡ some ([] ++ map (map lower) (runs [] line))
parse-runs_example = parse-runs line []

disk_words :
    words_in line ≡ (b'i' ∷ b't' ∷ 39 ∷ b's' ∷ []) ∷ (b'a' ∷ []) ∷ song ∷ (b'a' ∷ []) ∷ song ∷ []
unfolding program
disk_words = refl

locate_runs : elim (load disk create []) [ none ↦ none | some d ↦ locate d song 2 ] ≡ some 5
unfolding program
locate_runs = refl

-- The first load of a session, whose `Command` is as the constructor made it but for the operation.
abbrev load_any : Command
load_any = record Command.create { op = op_load }

-- What a run printed.
abbrev printed : Option (Context × List Line) → List Line
printed none = []
printed (some (c, out)) = out

-- "load f", "locate Song 2", "locate song 3", "load", "load f", "END", and a line that is not read
abbrev typed : List (List ℕ)
typed =
    (b'l' ∷ b'o' ∷ b'a' ∷ b'd' ∷ 32 ∷ b'f' ∷ [])
    ∷ (b'l' ∷ b'o' ∷ b'c' ∷ b'a' ∷ b't' ∷ b'e' ∷ 32 ∷ b'S' ∷ b'o' ∷ b'n' ∷ b'g' ∷ 32 ∷ b'2' ∷ [])
    ∷ (32 ∷ 32 ∷ b'l' ∷ b'o' ∷ b'c' ∷ b'a' ∷ b't' ∷ b'e' ∷ 32 ∷ 32 ∷ b's' ∷ b'o' ∷ b'n' ∷ b'g' ∷ 32
        ∷ b'3' ∷ 32 ∷ [])
    ∷ (b'l' ∷ b'o' ∷ b'a' ∷ b'd' ∷ [])
    ∷ (b'l' ∷ b'o' ∷ b'a' ∷ b'd' ∷ 32 ∷ b'f' ∷ [])
    ∷ (b'E' ∷ b'N' ∷ b'D' ∷ [])
    ∷ (b'n' ∷ b'e' ∷ b'w' ∷ [])
    ∷ []

main_runs :
    printed (run disk typed Command.create Context.create)
    ≡ number 5 ∷ no_matching_entry ∷ invalid_command ∷ invalid_command ∷ []
unfolding program
main_runs = refl

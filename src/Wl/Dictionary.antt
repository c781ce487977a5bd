-- ===== src/Wl/Dictionary.antt =====
-- wl::Dictionary of p1/wl.h and p1/wl.cpp. The files are a function from a path to the bytes of the
-- file, `none` where the stream does not open.
pub mod Load
use cs564_projects.Prelude.{
  ℕ, zero, suc, ◌+◌, ◌%◌, ◌^◌, Bool, true, false, List, [], ◌∷◌, ◌++◌, Option, none, some, ◌==◌,
  if◌then◌else◌,
}
use cs564_projects.Wl.Text.{parse}
use cs564_projects.Wl.Node.{Node, empty, insert, search}

abbrev pub Files : Type 0
Files = List ℕ → Option (List ℕ)

pub record Dictionary : Type 0 where
  pub word_list : Node
  pub is_loadable : Bool

-- `Dictionary::Dictionary`
abbrev pub create : Dictionary
create = record { word_list = empty; is_loadable = true }

-- `Dictionary::New`, which frees the old tree
unfoldable pub renew : Dictionary → Dictionary
renew d = record { word_list = empty; is_loadable = true }

-- `Dictionary::SetLodable`
unfoldable pub set_loadable : Dictionary → Bool → Dictionary
set_loadable d b = record d { is_loadable = b }

-- `while (std::getline(f, line))`: the lines of a file, without their line feeds; `line` is what has
-- been read of the current one. Behind the last line feed there is no line if no byte follows.
unfoldable pub get_lines : List ℕ → List ℕ → List (List ℕ)
get_lines [] [] = []
get_lines (b ∷ line) [] = (b ∷ line) ∷ []
get_lines line (c ∷ bytes) =
    let next_line = line ∷ get_lines [] bytes in
    let same_line = get_lines (line ++ c ∷ []) bytes in if c == 10 then next_line else same_line

-- The inner loop of `Dictionary::Load` over the words of a line: the tree and `total_count`, a
-- uint32_t.
unfoldable pub insert_words : Node → ℕ → List (List ℕ) → Node × ℕ
insert_words n total [] = (n, total)
insert_words n total (w ∷ ws) =
    let total' = (total + 1) % 2 ^ 32 in insert_words (insert n w total') total' ws

-- The outer loop, over the lines; the buffer is cleared behind each. `none` is a line that `Parse` does
-- not come to the end of.
unfoldable pub load_lines : Node → ℕ → List (List ℕ) → Option Node
unfolding insert_words
load_lines n total [] = some n
load_lines n total (line ∷ lines) = elim (parse line []) [
  | none ↦ none
  | some ws ↦ let (n', total') = insert_words n total ws in load_lines n' total' lines
]

-- `Dictionary::Load`
unfoldable pub load : Files → Dictionary → List ℕ → Option Dictionary
unfolding load_lines get_lines
load files d path =
    if d.is_loadable
    then elim (files path) [
      | none ↦ some d
      | some bytes ↦ elim (load_lines d.word_list 0 (get_lines [] bytes)) [
        | none ↦ none
        | some n ↦ some (record { word_list = n; is_loadable = false })
      ]
    ]
    else some d

-- `Dictionary::Locate`
unfoldable pub locate : Dictionary → List ℕ → ℕ → Option ℕ
locate d word occurrence = search d.word_list word occurrence

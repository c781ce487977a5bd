-- ===== src/Wl/Dictionary/Load.antt =====
-- `Dictionary::Load` and `Locate` of p1/wl.cpp against the positions of a word in the list of all
-- words of the file.
use cs564_projects.Prelude.{
  ℕ, suc, ◌+◌, ◌%◌, ◌^◌, ◌<◌, ◌==◌, Bool, false, ◌||◌, List, [], ◌∷◌, ◌++◌, map, some,
  if◌then◌else◌, length, ◌≡◌, refl, arith, ap, ◌∙◌, sym, Bool-cases, inl, inr,
}
use mathlib.Core.List.{append-nil, append_assoc, map-append}
use cs564_projects.Wl.Text.Runs.{in_word, lower, runs, close_run}
use cs564_projects.Wl.Text.Words.{parse-runs}
use cs564_projects.Wl.Node.{Node, empty, insert, str_eq}
use cs564_projects.Wl.Node.Spec.{below, IsTree}
use cs564_projects.Wl.Node.Late.{diverges_late}
use cs564_projects.Wl.Node.Contract.{insert-IsTree, insert-below}
use cs564_projects.Wl.Dictionary.{Dictionary, get_lines, insert_words, load_lines}

-- The places of a word in a list, where the first of the list has place `i + 1`.
unfoldable pub positions : List ℕ → ℕ → List (List ℕ) → List ℕ
positions u i [] = []
positions u i (w ∷ ws) = (if str_eq u w then suc i ∷ [] else []) ++ positions u (suc i) ws

-- All words of a text, line by line.
unfoldable words_of : List (List ℕ) → List (List ℕ)
words_of [] = []
words_of (line ∷ lines) = map (map lower) (runs [] line) ++ words_of lines

-- Some word of the list diverges late when it is inserted behind those before it.
unfoldable pub any_late : Node → ℕ → List (List ℕ) → Bool
any_late n i [] = false
any_late n i (w ∷ ws) = diverges_late (length w) n w || any_late (insert n w (suc i)) (suc i) ws

abbrev AllFilled : List (List ℕ) → Type 0
AllFilled [] = Unit
AllFilled (w ∷ ws) = (0 < length w) × AllFilled ws

insert_words-append :
    (n : Node) (i : ℕ) (ws vs : List (List ℕ))
    → insert_words n i (ws ++ vs) ≡ insert_words (insert_words n i ws).0 (insert_words n i ws).1 vs
unfolding insert_words
insert_words-append n i [] vs = refl
insert_words-append n i (w ∷ ws) vs =
    insert_words-append (insert n w ((i + 1) % 2 ^ 32)) ((i + 1) % 2 ^ 32) ws vs

-- Lines do not matter: a load is one loop over all words.
load_lines-words :
    (n : Node) (i : ℕ) (lines : List (List ℕ))
    → load_lines n i lines ≡ some (insert_words n i (words_of lines)).0
unfolding load_lines words_of insert_words
load_lines-words n i [] = refl
load_lines-words n i (line ∷ lines) =
    let ws = map (map lower) (runs [] line) in
    rw (load_lines, parse-runs line [], insert_words-append n i ws (words_of lines))
      (load_lines-words (insert_words n i ws).0 (insert_words n i ws).1 lines)

insert_words-below :
    (n : Node) (i : ℕ) (ws : List (List ℕ)) (u : List ℕ)
    → IsTree n
    → AllFilled ws
    → i + length ws < 2 ^ 32
    → any_late n i ws ≡ false
    → IsTree (insert_words n i ws).0
      × (below (insert_words n i ws).0 u ≡ below n u ++ positions u i ws)
unfolding insert_words any_late positions
insert_words-below n i [] u t f l early = (t, sym (append-nil (below n u)))
insert_words-below n i (w ∷ ws) u t f l early =
    let count : (i + 1) % 2 ^ 32 ≡ suc i = omega arith in
    let stays : diverges_late (length w) n w ≡ false = ground arith in
    let rest : any_late (insert n w (suc i)) (suc i) ws ≡ false = ground arith in
    let (tree, holds) =
      insert_words-below (insert n w (suc i)) (suc i) ws u (insert-IsTree n w (suc i) t).0 f.1
        (omega arith) rest in
    rw (insert_words, count)
      (tree, holds ∙ rw (insert-below n w (suc i) u t f.0 stays, append_assoc))

-- The words of a line are not empty.
AllFilled-append : (ws vs : List (List ℕ)) → AllFilled ws → AllFilled vs → AllFilled (ws ++ vs)
AllFilled-append [] vs h k = k
AllFilled-append (w ∷ ws) vs h k = (h.0, AllFilled-append ws vs h.1 k)

length-lower : (s : List ℕ) → length (map lower s) ≡ length s
length-lower [] = refl
length-lower (c ∷ s) = ap suc (length-lower s)

AllFilled-close_run : (run : List ℕ) → AllFilled (map (map lower) (close_run run))
AllFilled-close_run [] = tt
AllFilled-close_run (c ∷ run) = (omega (arith, length-lower (c ∷ run)), tt)

AllFilled-runs : (run rest : List ℕ) → AllFilled (map (map lower) (runs run rest))
unfolding runs
AllFilled-runs [] [] = tt
AllFilled-runs (c ∷ run) [] = (omega (arith, length-lower (c ∷ run)), tt)
AllFilled-runs run (c ∷ rest) = elim (Bool-cases (in_word c)) [
  | inl e ↦ rw (runs, e) (AllFilled-runs (run ++ c ∷ []) rest)
  | inr e ↦
      rw (runs, e, map-append)
        (AllFilled-append (map (map lower) (close_run run)) (map (map lower) (runs [] rest))
          (AllFilled-close_run run) (AllFilled-runs [] rest))
]

pub empty-IsTree : IsTree empty
unfolding IsTree
empty-IsTree = tt

pub below-empty : (u : List ℕ) → below empty u ≡ []
unfolding below
below-empty [] = refl
below-empty (x ∷ u) = refl

-- All words of a file: the longest runs of letters, digits and apostrophes among its bytes, in lower case.
unfoldable pub words_in : List ℕ → List (List ℕ)
unfolding runs
words_in bytes = map (map lower) (runs [] bytes)

-- A line feed is in no word, so that lines do not matter.
runs-append :
    (run line bytes : List ℕ) → runs run (line ++ 10 ∷ bytes) ≡ runs run line ++ runs [] bytes
unfolding runs in_word
runs-append run [] bytes = refl
runs-append run (c ∷ line) bytes = elim (Bool-cases (in_word c)) [
  | inl e ↦ rw (runs, e) (runs-append (run ++ c ∷ []) line bytes)
  | inr e ↦ rw (runs, e, runs-append [] line bytes, append_assoc)
]

words_of-get_lines :
    (line bytes : List ℕ)
    → words_of (get_lines line bytes) ≡ map (map lower) (runs [] (line ++ bytes))
unfolding words_of get_lines runs
words_of-get_lines [] [] = refl
words_of-get_lines (b ∷ line) [] = rw (append-nil, words_of, append-nil)
words_of-get_lines line (c ∷ bytes) = elim (Bool-cases (c == 10)) [
  | inl e ↦
      let feed : c ≡ 10 = ground arith in
      rw (
        get_lines,
        feed,
        words_of,
        words_of-get_lines [] bytes,
        runs-append [] line bytes,
        map-append,
      )
  | inr e ↦ rw (get_lines, e, words_of-get_lines (line ++ c ∷ []) bytes, append_assoc)
]

words_in-get_lines : (bytes : List ℕ) → words_of (get_lines [] bytes) ≡ words_in bytes
unfolding words_in
words_in-get_lines bytes = words_of-get_lines [] bytes

-- The tree of a load into the empty one.
abbrev pub tree_of : List ℕ → Node
tree_of bytes = (insert_words empty 0 (words_in bytes)).0

pub load_lines-tree_of :
    (bytes : List ℕ) → load_lines empty 0 (get_lines [] bytes) ≡ some (tree_of bytes)
load_lines-tree_of bytes =
    load_lines-words empty 0 (get_lines [] bytes)
    ∙ ap (λ ws. some (insert_words empty 0 ws).0) (words_in-get_lines bytes)

AllFilled-words_in : (bytes : List ℕ) → AllFilled (words_in bytes)
unfolding words_in
AllFilled-words_in bytes = AllFilled-runs [] bytes

-- It keeps every word under its places.
pub tree_of-positions :
    (bytes u : List ℕ)
    → length (words_in bytes) < 2 ^ 32
    → any_late empty 0 (words_in bytes) ≡ false
    → IsTree (tree_of bytes) × (below (tree_of bytes) u ≡ positions u 0 (words_in bytes))
tree_of-positions bytes u small early =
    let (tree, holds) =
      insert_words-below empty 0 (words_in bytes) u empty-IsTree (AllFilled-words_in bytes)
        (omega arith) early in
    (tree, holds ∙ rw (below-empty u))

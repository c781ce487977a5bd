-- ===== src/Wl/Node/Contract.antt =====
-- What `Node::Insert` and `Node::Search` of p1/wl.cpp promise together, and for which words they do
-- not keep it.
use cs564_projects.Prelude.{
  ℕ, ◌^◌, ◌<◌, true, false, List, [], ◌∷◌, ◌++◌, some, if◌then◌else◌, length, ◌≡◌, ap, ◌∙◌, inl,
  inr, arith, Bool-cases,
}
use cs564_projects.Wl.Node.{Node, prefix, str_eq, insert, search}
use cs564_projects.Wl.Node.Spec.{below, IsTree}
use cs564_projects.Wl.Node.Strings.{str_eq→eq}
use cs564_projects.Wl.Node.Landing.{landing, mark}
use cs564_projects.Wl.Node.Insert.{insert_loop-IsTree, insert_loop-Adds, prefix-insert_loop}
use cs564_projects.Wl.Node.Search.{search-below}
use cs564_projects.Wl.Node.Late.{diverges_late, landing-eq}
use cs564_projects.Wl.Node.Lost.{landing_longer, late-below}

-- `Insert` keeps the tree well formed, whatever the word, and the node's own prefix.
pub insert-IsTree :
    (n : Node) (word : List ℕ) (count : ℕ)
    → IsTree n
    → IsTree (insert n word count) × (prefix (insert n word count) ≡ prefix n)
unfolding insert
insert-IsTree n word count t =
    (insert_loop-IsTree (length word) count n word t, prefix-insert_loop (length word) count n word)

pub insert-below :
    (n : Node) (word : List ℕ) (count : ℕ) (u : List ℕ)
    → IsTree n
    → 0 < length word
    → diverges_late (length word) n word ≡ false
    → below (insert n word count) u ≡ below n u ++ (if str_eq u word then count ∷ [] else [])
unfolding insert
insert-below n word count u t pos early =
    let a = insert_loop-Adds (length word) count n word pos (omega arith) t in
    a.adds u
    ∙ ap (λ l. below n u ++ mark u l count) (landing-eq (length word) n word (omega arith) t early)

longer-mark : (u l : List ℕ) (k : ℕ) → length u < length l → mark u l k ≡ []
longer-mark u l k h = elim (Bool-cases (str_eq u l)) [
  | inl e ↦ absurd (omega (arith, cong_length (str_eq→eq u l e)))
  | inr e ↦ rw e
]
  where
    cong_length : u ≡ l → length u ≡ length l
    cong_length e = rw e

lost-below :
    (n : Node) (word : List ℕ) (count : ℕ)
    → IsTree n
    → diverges_late (length word) n word ≡ true
    → below (insert n word count) word ≡ []
unfolding insert diverges_late
lost-below n [] count t late = cc
lost-below n (x ∷ w) count t late =
    let word = x ∷ w in
    let a = insert_loop-Adds (length word) count n word (omega arith) (omega arith) t in
    let longer = landing_longer (length word) n word late in
    a.adds word
    ∙ rw (
      late-below (length word) n word (omega arith) t late,
      longer-mark word (landing (length word) n word) count longer,
    )

-- In a well-formed tree, a word that diverges late is not found before it is inserted, and it is
-- not found after it is inserted either: every search for it, at every occurrence, returns 0.
pub search-insert_lost :
    (n : Node) (word : List ℕ) (count occurrence : ℕ)
    → IsTree n
    → 0 < occurrence
    → occurrence < 2 ^ 32
    → diverges_late (length word) n word ≡ true
    → search (insert n word count) word occurrence ≡ some 0
search-insert_lost n word count occurrence t pos small late =
    rw
      (search-below (insert n word count) word occurrence (insert-IsTree n word count t).0 pos
        small)
      (rw (lost-below n word count t late))

-- ===== src/Wl/Node/Spec.antt =====
-- What a radix tree of p1/wl.cpp stands for: the counts kept under each word, read off from all the
-- paths of the tree, and when the tree is well formed.
use cs564_projects.Prelude.{ℕ, List, [], ◌∷◌, ◌++◌, Option, none, some, ◌==◌, ◌≢◌, if◌then◌else◌}
use cs564_projects.Wl.Node.{Node, Nodes, node, nil, cons, prefix}

-- What follows the prefix `p` in a word, if the word begins with it.
abbrev pub strip : List ℕ → List ℕ → Option (List ℕ)
strip [] w = some w
strip (x ∷ p) [] = none
strip (x ∷ p) (y ∷ w) = if x == y then strip p w else none

-- All counts under the paths below a node that spell the word.
unfoldable mutual
  pub below : Node → List ℕ → List ℕ
  below (node p c ch) [] = c
  below (node p c ch) (x ∷ w) = below_all ch (x ∷ w)

  pub below_all : Nodes → List ℕ → List ℕ
  below_all nil w = []
  below_all (cons m ms) w =
      elim (strip (prefix m) w) [ none ↦ [] | some r ↦ below m r ] ++ below_all ms w

-- The counts under the paths through one child.
abbrev pub entry : Node → List ℕ → List ℕ
entry m w = elim (strip (prefix m) w) [ none ↦ [] | some r ↦ below m r ]

-- The prefix is not empty and begins with another character.
abbrev pub Apart : ℕ → List ℕ → Type 0
Apart x [] = ⊥
Apart x (y ∷ p) = y ≢ x

abbrev pub Fresh : ℕ → Nodes → Type 0
Fresh x nil = Unit
Fresh x (cons m ms) = Apart x (prefix m) × Fresh x ms

abbrev pub Heads : List ℕ → Nodes → Type 0
Heads [] ms = ⊥
Heads (x ∷ p) ms = Fresh x ms

-- Each child has a prefix, and no two children of a node begin with the same character.
unfoldable mutual
  pub IsTree : Node → Type 0
  IsTree (node p c ch) = AreTrees ch

  pub AreTrees : Nodes → Type 0
  AreTrees nil = Unit
  AreTrees (cons m ms) = Heads (prefix m) ms × IsTree m × AreTrees ms

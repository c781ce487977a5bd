-- ===== src/Wl/Node/Search.antt =====
-- `Node::Search` of p1/wl.cpp reads the counts that the tree holds under a word.
use cs564_projects.Prelude.{
  ℕ, zero, suc, ◌+◌, ◌-◌, ◌^◌, ◌%◌, ◌≤◌, ◌<◌, List, [], ◌∷◌, Option, none, some, length, drop, ◌≡◌,
  refl, arith, inl, inr, Option-cases, length-drop, get_or, get_elem?-get_or, get_or-ge,
}
use cs564_projects.Wl.Node.{
  Node, node, prefix, next, search_loop, search, read_count, Walk, stops, returns_0, no_end,
}
use cs564_projects.Wl.Node.Spec.{below, entry, IsTree}
use cs564_projects.Wl.Node.Strings.{strip_tests}
use cs564_projects.Wl.Node.Tree.{below_all-next, next-some, fronts_pos}

-- The counts that `Search` has found when its loop ends, none at `return 0`.
abbrev found : Walk → Option (List ℕ)
found (stops c) = some c
found returns_0 = some []
found no_end = none

search_loop-below :
    (fuel : ℕ) (n : Node) (w : List ℕ)
    → length w ≤ fuel
    → IsTree n
    → found (search_loop fuel n w) ≡ some (below n w)
unfolding search_loop below IsTree
search_loop-below zero (node p c ch) [] l t = refl
search_loop-below (suc fuel) (node p c ch) [] l t = refl
search_loop-below zero (node p c ch) (x ∷ w) l t = absurd (omega arith)
search_loop-below (suc fuel) (node p c ch) (x ∷ w) l t =
    rw (below_all-next x w ch t) (elim (Option-cases (next x ch)) [
      | inl e ↦ rw (e, search_loop)
      | inr (m, e) ↦
          let (front, tree) = next-some x ch m t e in
          let pos = fronts_pos x (prefix m) front in
          let deeper =
            search_loop-below fuel m (drop (length (prefix m)) (x ∷ w))
              (omega (arith, length-drop (length (prefix m)) (x ∷ w))) tree in
          rw (e, search_loop, entry, strip_tests (prefix m) (x ∷ w)) (ground arith)
    ])

-- The occurrence counts from 1.
read_count_lem :
    (c : List ℕ) (occurrence : ℕ)
    → 0 < occurrence
    → occurrence < 2 ^ 32
    → read_count c occurrence ≡ some (get_or c (occurrence - 1) 0)
unfolding read_count
read_count_lem c occurrence h l =
    let i : (occurrence + 2 ^ 32 - 1) % 2 ^ 32 ≡ occurrence - 1 = omega arith in
    rw i (ground (arith, get_elem?-get_or c (occurrence - 1) 0, get_or-ge c (occurrence - 1) 0))

-- The end of `Search` behind its loop.
found-some :
    (walk : Walk) (c : List ℕ) (occurrence : ℕ)
    → 0 < occurrence
    → occurrence < 2 ^ 32
    → found walk ≡ some c
    → (elim walk [ stops c' ↦ read_count c' occurrence | returns_0 ↦ some 0 | no_end ↦ none ])
      ≡ some (get_or c (occurrence - 1) 0)
found-some (stops c') c occurrence h l e =
    let same : c' ≡ c = cc in rw same (read_count_lem c occurrence h l)
found-some returns_0 c occurrence h l e = let same : c ≡ [] = cc in rw same
found-some no_end c occurrence h l e = absurd (cc)

-- On a well-formed tree `Search` ends within the word's length, reads within bounds, and returns
-- the count kept for the given occurrence of the word, counted from 1, or 0 where there is none.
pub search-below :
    (n : Node) (word : List ℕ) (occurrence : ℕ)
    → IsTree n
    → 0 < occurrence
    → occurrence < 2 ^ 32
    → search n word occurrence ≡ some (get_or (below n word) (occurrence - 1) 0)
unfolding search
search-below n word occurrence t h l =
    found-some (search_loop (length word) n word) (below n word) occurrence h l
      (search_loop-below (length word) n word (omega arith) t)

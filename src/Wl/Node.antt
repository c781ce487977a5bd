-- ===== src/Wl/Node.antt =====
-- wl::Dictionary::Node of p1/wl.h and p1/wl.cpp: the radix tree that holds the words.
-- A string is the list of its bytes. The source keeps pointers to the children in a vector and
-- walks down with `curr` and `next`; here a step down is a recursive call, and the changed child
-- is put back where `Next` found it. The `for` loops over the index `i` recur on a bound of the
-- bytes left: each round consumes one byte at least, so the word's length is enough.
pub mod Spec
mod Strings
mod Tree
pub mod Search
mod Landing
mod Insert
pub mod Late
mod Lost
pub mod Contract
use cs564_projects.Prelude.{
  ℕ, zero, suc, ◌+◌, ◌-◌, ◌%◌, ◌^◌, Bool, true, false, List, [], ◌∷◌, ◌++◌, Option, none, some, ltb,
  ◌==◌, if◌then◌else◌, length, take, drop, get_elem?,
}

mutual
  pub data Node : Type 0 where
    node : List ℕ → List ℕ → Nodes → Node

  -- std::vector<Node*>
  pub data Nodes : Type 0 where
    nil : Nodes
    cons : Node → Nodes → Nodes

abbrev pub prefix : Node → List ℕ
prefix (node p c ch) = p

abbrev pub counts : Node → List ℕ
counts (node p c ch) = c

abbrev pub children : Node → Nodes
children (node p c ch) = ch

-- `new Node()`
abbrev pub empty : Node
empty = node [] [] nil

-- Strings compare by their bytes.
abbrev pub str_eq : List ℕ → List ℕ → Bool
str_eq [] [] = true
str_eq [] (y ∷ ys) = false
str_eq (x ∷ xs) [] = false
str_eq (x ∷ xs) (y ∷ ys) = if x == y then str_eq xs ys else false

-- `prefix.front() == ch`. On an empty prefix the source reads the terminating zero byte or worse;
-- no child has one.
abbrev pub fronts : ℕ → List ℕ → Bool
fronts ch [] = false
fronts ch (x ∷ p) = x == ch

-- `Node::Next`: the first child that begins with the character.
unfoldable pub next : ℕ → Nodes → Option Node
next ch nil = none
next ch (cons n ns) = if fronts ch (prefix n) then some n else next ch ns

-- The loop of `Node::Diff`, at index `j`, on what is left of the two strings.
unfoldable pub diff_from : ℕ → List ℕ → List ℕ → Option ℕ
diff_from j [] ys = none
diff_from j (x ∷ xs) [] = none
diff_from j (x ∷ xs) (y ∷ ys) = if x == y then diff_from (suc j) xs ys else some j

-- `Node::Diff`; the loop begins at index 1, and `none` stands for -1.
unfoldable pub diff : List ℕ → List ℕ → Option ℕ
unfolding diff_from
diff [] ys = none
diff (x ∷ xs) [] = none
diff (x ∷ xs) (y ∷ ys) = diff_from 1 xs ys

-- `Node::Split`: the node keeps the prefix before `i` and gets one child with all the rest.
unfoldable pub split : Node → ℕ → Node
split (node p c ch) i = node (take i p) [] (cons (node (drop i p) c ch) nil)

-- `next->counts.emplace_back(count)`
unfoldable pub add_count : ℕ → Node → Node
add_count k (node p c ch) = node p (c ++ k ∷ []) ch

-- How the loop of `Node::Search` ends: behind the loop, with the counts of the node where it is, at
-- `return 0`, or not within the fuel.
pub data Walk : Type 0 where
  stops : List ℕ → Walk
  returns_0 : Walk
  no_end : Walk

-- The loop of `Node::Search` from `curr`, with `sub` the bytes not yet read.
unfoldable pub search_loop : ℕ → Node → List ℕ → Walk
search_loop fuel n [] = stops (counts n)
search_loop zero n (x ∷ w) = no_end
search_loop (suc fuel) n (x ∷ w) = elim (next x (children n)) [
  | none ↦ returns_0
  | some m ↦
      let sub = x ∷ w in
      let rest = search_loop fuel m (drop (length (prefix m)) sub) in
      if str_eq (prefix m) sub
      then stops (counts m)
      else (if ltb (length (prefix m)) (length sub)
          then (if str_eq (prefix m) (take (length (prefix m)) sub) then rest else returns_0)
          else returns_0)
]

-- `counts[occurrence - 1]` under its test. The occurrence is a uint32_t, so `0 - 1` wraps; `none`
-- is a read out of bounds, which C++ leaves undefined.
unfoldable pub read_count : List ℕ → ℕ → Option ℕ
read_count c occurrence =
    if ltb (length c) occurrence then some 0 else get_elem? c ((occurrence + 2 ^ 32 - 1) % 2 ^ 32)

-- `Node::Search`; `none` where it reads out of bounds, or its loop does not end within the word's length.
unfoldable pub search : Node → List ℕ → ℕ → Option ℕ
unfolding search_loop read_count next
search n word occurrence = elim (search_loop (length word) n word) [
  | stops c ↦ read_count c occurrence
  | returns_0 ↦ some 0
  | no_end ↦ none
]

-- The child that `Next` finds is replaced by its image; if there is none, `fresh` is appended.
unfoldable pub at_next : ℕ → (Node → Node) → Node → Nodes → Nodes
at_next ch f fresh nil = cons fresh nil
at_next ch f fresh (cons n ns) =
    if fronts ch (prefix n) then cons (f n) ns else cons n (at_next ch f fresh ns)

-- The body of the loop of `Node::Insert` at the child `m` that `Next` found: `go` is the loop's next
-- round, from `m` and the bytes after index `i`. After a split at `i_diff` only the `i++` of the loop
-- moves the index.
unfoldable pub insert_at : (Node → List ℕ → Node) → ℕ → List ℕ → Node → Node
unfolding diff split add_count
insert_at go k sub m = elim (diff (prefix m) sub) [
  | none ↦
      let deeper = go m (drop (length (prefix m)) sub) in
      if ltb (length (prefix m)) (length sub)
      then deeper
      else (if ltb (length sub) (length (prefix m))
          then add_count k (split m (length sub))
          else add_count k m)
  | some i ↦ go (split m i) (drop 1 sub)
]

-- The loop of `Node::Insert` from `curr`.
unfoldable pub insert_loop : ℕ → ℕ → Node → List ℕ → Node
unfolding at_next insert_at
insert_loop zero k n sub = n
insert_loop (suc fuel) k n [] = n
insert_loop (suc fuel) k (node p c ch) (x ∷ w) = node p c (
    at_next x (insert_at (λ m rest. insert_loop fuel k m rest) k (x ∷ w))
      (node (x ∷ w) (k ∷ []) nil) ch)

-- `Node::Insert`
unfoldable pub insert : Node → List ℕ → ℕ → Node
unfolding insert_loop
insert n word k = insert_loop (length word) k n word

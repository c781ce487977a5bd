-- ===== src/Wl/Node/Tree.antt =====
-- `Node::Next` and the change of the child that it finds, in a well-formed tree of p1/wl.cpp.
use cs564_projects.Prelude.{
  ℕ, ◌<◌, true, false, List, [], ◌∷◌, none, some, ◌==◌, if◌then◌else◌, length, ◌≡◌, refl, arith,
  inl, inr, ◌≢◌, Bool-cases,
}
use mathlib.Core.List.{append-nil}
use cs564_projects.Wl.Node.{Node, Nodes, node, nil, cons, prefix, fronts, next, at_next}
use cs564_projects.Wl.Node.Spec.{below, below_all, entry, Apart, Fresh, Heads, IsTree, AreTrees}

-- The counts under a word that begins with `y` are those of the child that `Next` finds for `y`.
entry-Apart : (y : ℕ) (w : List ℕ) (m : Node) → Apart y (prefix m) → entry m (y ∷ w) ≡ []
entry-Apart y w (node [] c ch) h = elim h [ ]
entry-Apart y w (node (x ∷ p) c ch) h = ground arith

below_all-Fresh : (y : ℕ) (w : List ℕ) (ms : Nodes) → Fresh y ms → below_all ms (y ∷ w) ≡ []
unfolding below
below_all-Fresh y w nil h = refl
below_all-Fresh y w (cons m ms) h = rw (entry-Apart y w m h.0, below_all-Fresh y w ms h.1)

next-Fresh : (y : ℕ) (ms : Nodes) → Fresh y ms → next y ms ≡ none
unfolding next
next-Fresh y nil h = refl
next-Fresh y (cons (node [] c ch) ms) h = elim h.0 [ ]
next-Fresh y (cons (node (x ∷ p) c ch) ms) h = ground (arith, next-Fresh y ms h.1)

pub below_all-next :
    (y : ℕ) (w : List ℕ) (ms : Nodes)
    → AreTrees ms
    → below_all ms (y ∷ w) ≡ elim (next y ms) [ none ↦ [] | some m ↦ entry m (y ∷ w) ]
unfolding below next AreTrees
below_all-next y w nil t = refl
below_all-next y w (cons (node [] c ch) ms) t = elim t.0 [ ]
below_all-next y w (cons (node (x ∷ p) c ch) ms) t = elim (Bool-cases (x == y)) [
  | inl e ↦
      let x-eq-y : x ≡ y = ground arith in
      rw (e, below_all-Fresh y w ms (rw x-eq-y at t.0), append-nil, e, entry)
  | inr e ↦ rw e (below_all-next y w ms t.2)
]

-- The child that `Next` finds begins with the character, and is well formed.
pub next-some :
    (x : ℕ) (ms : Nodes) (m : Node)
    → AreTrees ms
    → next x ms ≡ some m
    → (fronts x (prefix m) ≡ true) × IsTree m
unfolding next AreTrees
next-some x nil m t h = cc
next-some x (cons (node q c ch) ms) m t h = ground (arith, next-some x ms m)

pub fronts_same : (x y : ℕ) (p : List ℕ) → fronts x p ≡ true → fronts y p ≡ (x == y)
fronts_same x y [] h = cc
fronts_same x y (z ∷ p) h = ground arith

pub fronts_pos : (x : ℕ) (p : List ℕ) → fronts x p ≡ true → 0 < length p
fronts_pos x [] h = cc
fronts_pos x (z ∷ p) h = omega arith

fronts_apart : (x y : ℕ) (p : List ℕ) → fronts x p ≡ false → (x == y) ≡ true → fronts y p ≡ false
fronts_apart x y [] h e = refl
fronts_apart x y (z ∷ p) h e = ground arith

Apart-fronts : (x y : ℕ) (p : List ℕ) → fronts x p ≡ true → x ≢ y → Apart y p
Apart-fronts x y [] h e = absurd (cc)
Apart-fronts x y (z ∷ p) h e = ground arith

-- After the change of the child for `x`, `Next` finds the new child for `x`, and for any other
-- character what it found before.
pub next-at_next :
    (x y : ℕ) (f : Node → Node) (fresh : Node) (ms : Nodes)
    → ((m : Node) → fronts x (prefix m) ≡ true → fronts x (prefix (f m)) ≡ true)
    → fronts x (prefix fresh) ≡ true
    → next y (at_next x f fresh ms)
      ≡ (if x == y then some (elim (next x ms) [ none ↦ fresh | some m ↦ f m ]) else next y ms)
unfolding next at_next
next-at_next x y f fresh nil keep new = rw (fronts_same x y (prefix fresh) new)
next-at_next x y f fresh (cons m ms) keep new = elim (Bool-cases (fronts x (prefix m))) [
  | inl e ↦
      rw (e, next, fronts_same x y (prefix (f m)) (keep m e), fronts_same x y (prefix m) e)
        (ground arith)
  | inr e ↦
      rw (e, next, next-at_next x y f fresh ms keep new)
        (ground (arith, fronts_apart x y (prefix m)))
]

-- The change keeps the tree well formed.
at_next-Fresh :
    (x y : ℕ) (f : Node → Node) (fresh : Node) (ms : Nodes)
    → ((m : Node) → fronts x (prefix m) ≡ true → fronts x (prefix (f m)) ≡ true)
    → fronts x (prefix fresh) ≡ true
    → x ≢ y
    → Fresh y ms
    → Fresh y (at_next x f fresh ms)
unfolding at_next
at_next-Fresh x y f fresh nil keep new ne h = (Apart-fronts x y (prefix fresh) new ne, tt)
at_next-Fresh x y f fresh (cons m ms) keep new ne h = elim (Bool-cases (fronts x (prefix m))) [
  | inl e ↦ rw e (Apart-fronts x y (prefix (f m)) (keep m e) ne, h.1)
  | inr e ↦ rw e (h.0, at_next-Fresh x y f fresh ms keep new ne h.1)
]

Heads-front : (x : ℕ) (p : List ℕ) (ms : Nodes) → fronts x p ≡ true → Fresh x ms → Heads p ms
Heads-front x [] ms h t = absurd (cc)
Heads-front x (y ∷ p) ms h t = let e : y ≡ x = ground arith in rw e t

Fresh-Heads : (x : ℕ) (p : List ℕ) (ms : Nodes) → fronts x p ≡ true → Heads p ms → Fresh x ms
Fresh-Heads x [] ms h t = elim t [ ]
Fresh-Heads x (y ∷ p) ms h t = let e : x ≡ y = ground arith in rw e t

at_next-Heads :
    (x : ℕ) (p : List ℕ) (f : Node → Node) (fresh : Node) (ms : Nodes)
    → ((m : Node) → fronts x (prefix m) ≡ true → fronts x (prefix (f m)) ≡ true)
    → fronts x (prefix fresh) ≡ true
    → fronts x p ≡ false
    → Heads p ms
    → Heads p (at_next x f fresh ms)
at_next-Heads x [] f fresh ms keep new e h = elim h [ ]
at_next-Heads x (y ∷ p) f fresh ms keep new e h =
    at_next-Fresh x y f fresh ms keep new (ground arith) h

pub at_next-AreTrees :
    (x : ℕ) (f : Node → Node) (fresh : Node) (ms : Nodes)
    → ((m : Node) → fronts x (prefix m) ≡ true → fronts x (prefix (f m)) ≡ true)
    → fronts x (prefix fresh) ≡ true
    → ((m : Node) → fronts x (prefix m) ≡ true → IsTree m → IsTree (f m))
    → IsTree fresh
    → AreTrees ms
    → AreTrees (at_next x f fresh ms)
unfolding at_next AreTrees
at_next-AreTrees x f fresh nil keep new tree t ts = (Heads-front x (prefix fresh) nil new tt, t, tt)
at_next-AreTrees x f fresh (cons m ms) keep new tree t ts =
    elim (Bool-cases (fronts x (prefix m))) [
      | inl e ↦ rw e (
        Heads-front x (prefix (f m)) ms (keep m e) (Fresh-Heads x (prefix m) ms e ts.0),
        tree m e ts.1,
        ts.2,
      )
      | inr e ↦ rw e (
        at_next-Heads x (prefix m) f fresh ms keep new e ts.0,
        ts.1,
        at_next-AreTrees x f fresh ms keep new tree t ts.2,
      )
    ]

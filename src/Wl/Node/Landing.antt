-- ===== src/Wl/Node/Landing.antt =====
-- `Node::Insert` of p1/wl.cpp: the word under which the tree keeps the count that is inserted.
use mathlib.Core.List.{append-nil}
use cs564_projects.Prelude.{
  ℕ, zero, suc, ◌≤◌, ◌<◌, true, false, List, [], ◌∷◌, ◌++◌, none, some, ltb, if◌then◌else◌, length,
  take, drop, ◌≡◌, refl, ap, ◌∙◌, arith, inl, inr, Option-cases, Bool-cases, length-drop,
  take-append-drop, drop_all, take-length-append, ltb→lt,
}
use cs564_projects.Wl.Node.{
  Node, Nodes, node, nil, cons, prefix, children, next, str_eq, fronts, diff, split, add_count,
  insert_at,
}
use cs564_projects.Wl.Node.Spec.{strip, below, entry, Heads, IsTree}
use cs564_projects.Wl.Node.Strings.{
  str_eq_append, strip→append, strip-none, strip_twice, diff-none_short, diff-some,
}
use cs564_projects.Wl.Node.Tree.{fronts_pos}

-- The bytes under which the loop of `Insert` leaves the count, one round at a child.
unfoldable pub landing_at : (Node → List ℕ → List ℕ) → List ℕ → Node → List ℕ
landing_at go sub m = elim (diff (prefix m) sub) [
  | none ↦
      let deeper = prefix m ++ go m (drop (length (prefix m)) sub) in
      if ltb (length (prefix m)) (length sub) then deeper else sub
  | some i ↦ take i (prefix m) ++ go (split m i) (drop 1 sub)
]

unfoldable pub landing : ℕ → Node → List ℕ → List ℕ
unfolding landing_at
landing zero n sub = sub
landing (suc fuel) n [] = []
landing (suc fuel) n (x ∷ w) = elim (next x (children n)) [
  | none ↦ x ∷ w
  | some m ↦ landing_at (λ m' rest. landing fuel m' rest) (x ∷ w) m
]

-- The count `k`, if `u` is the word `l`.
abbrev pub mark : List ℕ → List ℕ → ℕ → List ℕ
mark u l k = if str_eq u l then k ∷ [] else []

-- Counts added below a node are added below its prefix.
entry-mark :
    (k : ℕ) (g m : Node) (l u : List ℕ)
    → prefix g ≡ prefix m
    → ((r : List ℕ) → below g r ≡ below m r ++ mark r l k)
    → entry g u ≡ entry m u ++ mark u (prefix m ++ l) k
entry-mark k g m l u e h = elim (Option-cases (strip (prefix m) u)) [
  | inl no_strip ↦ rw (entry, e, no_strip, strip-none (prefix m) u l no_strip)
  | inr (r, rest) ↦
      let u-eq = strip→append (prefix m) u r rest in
      rw (entry, e, rest, h r) (rw (u-eq, str_eq_append))
]

pub Heads-nil : (p : List ℕ) → 0 < length p → Heads p nil
Heads-nil [] h = absurd (omega arith)
Heads-nil (x ∷ p) h = tt

strip_split :
    (p : List ℕ) (i : ℕ) (u : List ℕ)
    → strip p u ≡ elim (strip (take i p) u) [ none ↦ none | some r ↦ strip (drop i p) r ]
strip_split p i u = rw (← strip_twice (take i p) (drop i p) u, take-append-drop)

below-split :
    (a q c : List ℕ) (ch : Nodes) (r : List ℕ)
    → 0 < length q
    → below (node a [] (cons (node q c ch) nil)) r ≡ entry (node q c ch) r
unfolding below
below-split a [] c ch r h = absurd (omega arith)
below-split a (x ∷ q) c ch [] h = refl
below-split a (x ∷ q) c ch (y ∷ r) h = append-nil _

-- A split moves no count.
entry-split :
    (m : Node) (i : ℕ) (u : List ℕ)
    → 0 < i
    → i < length (prefix m)
    → entry (split m i) u ≡ entry m u
unfolding split below
entry-split (node p c ch) i u h l =
    rw (entry, strip_split p i u)
      (elim (Option-cases (strip (take i p) u)) [
        | inl e ↦ rw (entry, e)
        | inr (r, e) ↦
            rw (entry, e)
              (below-split (take i p) (drop i p) c ch r (omega (arith, length-drop i p)))
      ])

pub prefix-split : (m : Node) (i : ℕ) → prefix (split m i) ≡ take i (prefix m)
unfolding split
prefix-split (node p c ch) i = refl

pub split-IsTree : (m : Node) (i : ℕ) → IsTree m → i < length (prefix m) → IsTree (split m i)
unfolding split IsTree
split-IsTree (node p c ch) i t h = (Heads-nil (drop i p) (omega (arith, length-drop i p)), t, tt)

add_count-below :
    (k : ℕ) (m : Node) (r : List ℕ) → below (add_count k m) r ≡ below m r ++ mark r [] k
unfolding add_count below
add_count-below k (node p c ch) [] = refl
add_count-below k (node p c ch) (x ∷ r) = rw append-nil

pub prefix-add_count : (k : ℕ) (m : Node) → prefix (add_count k m) ≡ prefix m
unfolding add_count
prefix-add_count k (node p c ch) = refl

pub entry-add_count :
    (k : ℕ) (m : Node) (u : List ℕ) → entry (add_count k m) u ≡ entry m u ++ mark u (prefix m) k
entry-add_count k m u =
    entry-mark k (add_count k m) m [] u (prefix-add_count k m) (add_count-below k m) ∙ rw append-nil

-- The word ends inside the prefix, or with it.
insert_here-entry :
    (k x : ℕ) (w : List ℕ) (m : Node) (u : List ℕ)
    → fronts x (prefix m) ≡ true
    → diff (prefix m) (x ∷ w) ≡ none
    → ltb (length (prefix m)) (length (x ∷ w)) ≡ false
    → entry
        (if ltb (length (x ∷ w)) (length (prefix m))
          then add_count k (split m (length (x ∷ w)))
          else add_count k m)
        u
      ≡ entry m u ++ mark u (x ∷ w) k
insert_here-entry k x w m u front e not_longer =
    let word_first = diff-none_short x (prefix m) w front e (ground arith) in
    elim (Bool-cases (ltb (length (x ∷ w)) (length (prefix m)))) [
      | inl inside ↦
          let cut : take (length (x ∷ w)) (prefix m) ≡ x ∷ w =
            ap (take (length (x ∷ w))) word_first ∙ take-length-append (x ∷ w) _ in
          rw inside (
            entry-add_count k (split m (length (x ∷ w))) u
            ∙ rw (
              entry-split m (length (x ∷ w)) u (omega arith) (ltb→lt _ _ inside),
              prefix-split,
              cut,
            ))
      | inr exact ↦
          let same : prefix m ≡ x ∷ w =
            word_first
            ∙ ap (λ r. (x ∷ w) ++ r) (drop_all (length (x ∷ w)) (prefix m) (ground arith))
            ∙ append-nil (x ∷ w) in
          rw exact (entry-add_count k m u ∙ rw same)
    ]

-- What the loop's next round is trusted with: it keeps the node's own prefix and adds the count
-- under the word where it lands.
pub record Adds (k : ℕ) (g m : Node) (l : List ℕ) : Type 0 where
  pub same : prefix g ≡ prefix m
  pub adds : (r : List ℕ) → below g r ≡ below m r ++ mark r l k

module _ (k fuel : ℕ) (go : Node → List ℕ → Node) (land : Node → List ℕ → List ℕ)
    (ih : (m : Node) (rest : List ℕ)
      → 0 < length rest
      → length rest ≤ fuel
      → IsTree m
      → Adds k (go m rest) m (land m rest)) where
  pub insert_at-entry :
      (x : ℕ) (w : List ℕ) (m : Node) (u : List ℕ)
      → fronts x (prefix m) ≡ true
      → length (x ∷ w) ≤ suc fuel
      → IsTree m
      → entry (insert_at go k (x ∷ w) m) u ≡ entry m u ++ mark u (landing_at land (x ∷ w) m) k
  unfolding insert_at landing_at
  insert_at-entry x w m u front l t = elim (Option-cases (diff (prefix m) (x ∷ w))) [
    | inr (i, e) ↦
        let (pos, short, inside) = diff-some x i (prefix m) w e in
        let a = ih (split m i) w (omega arith) (omega arith) (split-IsTree m i t short) in
        rw (insert_at, landing_at, e, ← entry-split m i u pos short, ← prefix-split m i)
          (entry-mark k _ (split m i) _ u a.same a.adds)
    | inl e ↦ elim (Bool-cases (ltb (length (prefix m)) (length (x ∷ w)))) [
      | inl longer ↦
          let pos = fronts_pos x (prefix m) front in
          let shorter = ltb→lt (length (prefix m)) (length (x ∷ w)) longer in
          let a =
            ih m (drop (length (prefix m)) (x ∷ w))
              (omega (arith, length-drop (length (prefix m)) (x ∷ w)))
              (omega (arith, length-drop (length (prefix m)) (x ∷ w))) t in
          rw (insert_at, landing_at, e, longer) (entry-mark k _ m _ u a.same a.adds)
      | inr not_longer ↦
          rw (insert_at, landing_at, e, not_longer) (insert_here-entry k x w m u front e not_longer)
    ]
  ]

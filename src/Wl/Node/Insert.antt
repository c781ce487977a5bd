-- ===== src/Wl/Node/Insert.antt =====
-- `Node::Insert` of p1/wl.cpp: the tree stays well formed, and the count is added under one word.
use mathlib.Core.List.{append-nil}
use cs564_projects.Prelude.{
  ℕ, zero, suc, ◌≤◌, ◌<◌, true, false, List, [], ◌∷◌, ◌++◌, none, some, ltb, ◌==◌, length, take,
  drop, ◌≡◌, refl, ap, ◌∙◌, arith, inl, inr, Option-cases, Bool-cases, ltb→lt,
}
use cs564_projects.Wl.Node.{
  Node, Nodes, node, nil, prefix, next, fronts, diff, split, add_count, at_next, insert_at,
  insert_loop,
}
use cs564_projects.Wl.Node.Spec.{strip, below, entry, IsTree, AreTrees}
use cs564_projects.Wl.Node.Strings.{diff-some}
use cs564_projects.Wl.Node.Tree.{below_all-next, next-some, next-at_next, at_next-AreTrees}
use cs564_projects.Wl.Node.Landing.{
  landing_at, landing, mark, Adds, prefix-split, split-IsTree, prefix-add_count, entry-add_count,
  insert_at-entry,
}

pub prefix-insert_loop :
    (fuel k : ℕ) (n : Node) (sub : List ℕ) → prefix (insert_loop fuel k n sub) ≡ prefix n
unfolding insert_loop
prefix-insert_loop zero k n sub = refl
prefix-insert_loop (suc fuel) k n [] = refl
prefix-insert_loop (suc fuel) k (node p c ch) (x ∷ w) = refl

fronts-take : (x i : ℕ) (p : List ℕ) → fronts x p ≡ true → 0 < i → fronts x (take i p) ≡ true
fronts-take x i [] h l = cc
fronts-take x zero (y ∷ p) h l = absurd (omega arith)
fronts-take x (suc i) (y ∷ p) h l = h

add_count-IsTree : (k : ℕ) (m : Node) → IsTree m → IsTree (add_count k m)
unfolding add_count IsTree
add_count-IsTree k (node p c ch) t = t

-- One round at a child keeps the child's first character, and a well-formed tree.
module _ (k : ℕ) (go : Node → List ℕ → Node) where
  fronts-insert_at :
      ((m : Node) (rest : List ℕ) → prefix (go m rest) ≡ prefix m)
      → (x : ℕ) (w : List ℕ) (m : Node) → fronts x (prefix m) ≡ true
      → fronts x (prefix (insert_at go k (x ∷ w) m)) ≡ true
  unfolding insert_at
  fronts-insert_at same x w m front = elim (Option-cases (diff (prefix m) (x ∷ w))) [
    | inr (i, e) ↦
        rw (insert_at, e, same (split m i) w, prefix-split)
          (fronts-take x i (prefix m) front (diff-some x i (prefix m) w e).0)
    | inl e ↦
        rw (insert_at, e)
          (ground (
            arith,
            same m (drop (length (prefix m)) (x ∷ w)),
            prefix-split m (length (x ∷ w)),
            prefix-add_count k (split m (length (x ∷ w))),
            prefix-add_count k m,
            fronts-take x (length (x ∷ w)) (prefix m),
          ))
  ]

  insert_at-IsTree :
      ((m : Node) (rest : List ℕ) → IsTree m → IsTree (go m rest))
      → (x : ℕ) (w : List ℕ) (m : Node) → IsTree m
      → IsTree (insert_at go k (x ∷ w) m)
  unfolding insert_at
  insert_at-IsTree keep x w m t = elim (Option-cases (diff (prefix m) (x ∷ w))) [
    | inr (i, e) ↦
        rw (insert_at, e) (keep (split m i) w (split-IsTree m i t (diff-some x i (prefix m) w e).1))
    | inl e ↦ elim (Bool-cases (ltb (length (prefix m)) (length (x ∷ w)))) [
      | inl longer ↦ rw (insert_at, e, longer) (keep m (drop (length (prefix m)) (x ∷ w)) t)
      | inr not_longer ↦ elim (Bool-cases (ltb (length (x ∷ w)) (length (prefix m)))) [
        | inl inside ↦
            rw (insert_at, e, not_longer, inside)
              (add_count-IsTree k (split m (length (x ∷ w)))
                (split-IsTree m (length (x ∷ w)) t (ltb→lt _ _ inside)))
        | inr exact ↦ rw (insert_at, e, not_longer, exact) (add_count-IsTree k m t)
      ]
    ]
  ]

pub insert_loop-IsTree :
    (fuel k : ℕ) (n : Node) (sub : List ℕ) → IsTree n → IsTree (insert_loop fuel k n sub)
unfolding insert_loop IsTree
insert_loop-IsTree zero k n sub t = t
insert_loop-IsTree (suc fuel) k n [] t = t
insert_loop-IsTree (suc fuel) k (node p c ch) (x ∷ w) t =
    at_next-AreTrees x (insert_at (λ m rest. insert_loop fuel k m rest) k (x ∷ w))
      (node (x ∷ w) (k ∷ []) nil) ch
      (fronts-insert_at k (λ m rest. insert_loop fuel k m rest) (prefix-insert_loop fuel k) x w)
      (ground arith)
      (λ m front tree.
        insert_at-IsTree k (λ m rest. insert_loop fuel k m rest) (insert_loop-IsTree fuel k) x w m
          tree)
      tt t

mark-nil : (x : ℕ) (l : List ℕ) (k : ℕ) → fronts x l ≡ true → mark [] l k ≡ []
mark-nil x [] k h = absurd (cc)
mark-nil x (y ∷ l) k h = refl

mark-ne :
    (x y : ℕ) (l v : List ℕ) (k : ℕ) → fronts x l ≡ true → (x == y) ≡ false → mark (y ∷ v) l k ≡ []
mark-ne x y [] v k h e = absurd (cc)
mark-ne x y (z ∷ l) v k h e = ground arith

entry-nothing : (s u : List ℕ) → entry (node s [] nil) u ≡ []
unfolding below
entry-nothing s u = elim (Option-cases (strip s u)) [
  | inl e ↦ rw (entry, e)
  | inr (r, e) ↦ rw (entry, e) (no_counts r)
]
  where
    no_counts : (r : List ℕ) → below (node s [] nil) r ≡ []
    no_counts [] = refl
    no_counts (x ∷ r) = refl

entry-fresh : (k : ℕ) (s u : List ℕ) → entry (node s (k ∷ []) nil) u ≡ mark u s k
unfolding add_count
entry-fresh k s u = entry-add_count k (node s [] nil) u ∙ rw (entry-nothing s u)

-- A change of the child that `Next` finds, seen from the node above.
module _ (x k : ℕ) (f : Node → Node) (fresh : Node) (l : List ℕ) (ch : Nodes)
    (keep : (m : Node) → fronts x (prefix m) ≡ true → fronts x (prefix (f m)) ≡ true)
    (new : fronts x (prefix fresh) ≡ true) (before : AreTrees ch)
    (after : AreTrees (at_next x f fresh ch)) (front : fronts x l ≡ true)
    (hit : (u : List ℕ)
      → entry (elim (next x ch) [ none ↦ fresh | some m ↦ f m ]) u
        ≡ elim (next x ch) [ none ↦ [] | some m ↦ entry m u ] ++ mark u l k) where
  below-at_next :
      (p c r : List ℕ)
      → below (node p c (at_next x f fresh ch)) r ≡ below (node p c ch) r ++ mark r l k
  unfolding below
  below-at_next p c [] = rw (mark-nil x l k front, append-nil)
  below-at_next p c (y ∷ v) =
      rw
        (
          below_all-next y v (at_next x f fresh ch) after,
          below_all-next y v ch before,
          next-at_next x y f fresh ch keep new,
        )
        (elim (Bool-cases (x == y)) [
          | inl e ↦
              let same : y ≡ x = ground arith in rw (e, ap (λ z. next z ch) same) (hit (y ∷ v))
          | inr e ↦ rw (e, mark-ne x y l v k front e, append-nil)
        ])

fronts-append : (x : ℕ) (p q : List ℕ) → fronts x p ≡ true → fronts x (p ++ q) ≡ true
fronts-append x [] q h = cc
fronts-append x (y ∷ p) q h = h

fronts-landing_at :
    (land : Node → List ℕ → List ℕ) (x : ℕ) (w : List ℕ) (m : Node)
    → fronts x (prefix m) ≡ true
    → fronts x (landing_at land (x ∷ w) m) ≡ true
unfolding landing_at
fronts-landing_at land x w m front = elim (Option-cases (diff (prefix m) (x ∷ w))) [
  | inl e ↦
      rw (landing_at, e)
        (ground (arith, fronts-append x (prefix m) (land m (drop (length (prefix m)) (x ∷ w)))))
  | inr (i, e) ↦
      rw (landing_at, e)
        (fronts-append x (take i (prefix m)) (land (split m i) w)
          (fronts-take x i (prefix m) front (diff-some x i (prefix m) w e).0))
]

fronts-landing :
    (x : ℕ) (w : List ℕ) (fuel : ℕ) (p c : List ℕ) (ch : Nodes)
    → AreTrees ch
    → fronts x (landing (suc fuel) (node p c ch) (x ∷ w)) ≡ true
unfolding landing
fronts-landing x w fuel p c ch t = elim (Option-cases (next x ch)) [
  | inl e ↦ rw (landing, e) (ground arith)
  | inr (m, e) ↦
      rw (landing, e)
        (fronts-landing_at (λ m rest. landing fuel m rest) x w m (next-some x ch m t e).0)
]

-- The new child for the first character holds what the old one held, and the count.
module _ (k fuel : ℕ) (go : Node → List ℕ → Node) (land : Node → List ℕ → List ℕ)
    (ih : (m : Node) (rest : List ℕ)
      → 0 < length rest
      → length rest ≤ fuel
      → IsTree m
      → Adds k (go m rest) m (land m rest)) where
  landing_hit :
      (x : ℕ) (w : List ℕ) (ch : Nodes) (u : List ℕ)
      → length (x ∷ w) ≤ suc fuel
      → AreTrees ch
      → entry
          (elim (next x ch) [
            | none ↦ node (x ∷ w) (k ∷ []) nil
            | some m ↦ insert_at go k (x ∷ w) m
          ])
          u
        ≡ elim (next x ch) [ none ↦ [] | some m ↦ entry m u ]
          ++ mark u (elim (next x ch) [ none ↦ x ∷ w | some m ↦ landing_at land (x ∷ w) m ]) k
  landing_hit x w ch u l t = elim (Option-cases (next x ch)) [
    | inl e ↦ rw e (entry-fresh k (x ∷ w) u)
    | inr (m, e) ↦
        let (front, tree) = next-some x ch m t e in
        rw e (insert_at-entry k fuel go land ih x w m u front l tree)
  ]

pub insert_loop-Adds :
    (fuel k : ℕ) (n : Node) (sub : List ℕ)
    → 0 < length sub
    → length sub ≤ fuel
    → IsTree n
    → Adds k (insert_loop fuel k n sub) n (landing fuel n sub)
unfolding insert_loop IsTree landing
insert_loop-Adds zero k n [] pos l t = absurd (omega arith)
insert_loop-Adds zero k n (x ∷ w) pos l t = absurd (omega arith)
insert_loop-Adds (suc fuel) k n [] pos l t = absurd (omega arith)
insert_loop-Adds (suc fuel) k (node p c ch) (x ∷ w) pos l t = record {
  same = refl;
  adds =
      below-at_next x k (insert_at (λ m rest. insert_loop fuel k m rest) k (x ∷ w))
        (node (x ∷ w) (k ∷ []) nil) (landing (suc fuel) (node p c ch) (x ∷ w)) ch
        (fronts-insert_at k (λ m rest. insert_loop fuel k m rest) (prefix-insert_loop fuel k) x w)
        (ground arith) t (insert_loop-IsTree (suc fuel) k (node p c ch) (x ∷ w) t)
        (fronts-landing x w fuel p c ch t)
        (λ u.
          landing_hit k fuel (λ m rest. insert_loop fuel k m rest) (λ m rest. landing fuel m rest)
            (insert_loop-Adds fuel k) x w ch u l t)
        p c;
}

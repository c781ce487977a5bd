-- ===== src/Wl/Node/Late.antt =====
-- When `Node::Insert` of p1/wl.cpp keeps the count under the word itself. After a split at `i_diff`
-- the loop moves on by one byte and not by `i_diff` bytes, so a word that first differs from a
-- child's prefix at index 2 or later is stored with bytes repeated.
use cs564_projects.Prelude.{
  ℕ, zero, suc, ◌≤◌, Bool, true, false, List, [], ◌∷◌, ◌++◌, none, some, ltb, if◌then◌else◌, length,
  take, drop, ◌≡◌, refl, ap, ◌∙◌, arith, inl, inr, Option-cases, length-drop,
}
use cs564_projects.Wl.Node.{Node, node, prefix, children, next, fronts, diff, split}
use cs564_projects.Wl.Node.Spec.{IsTree}
use cs564_projects.Wl.Node.Strings.{diff-some, diff-none, diff-one}
use cs564_projects.Wl.Node.Tree.{next-some, fronts_pos}
use cs564_projects.Wl.Node.Landing.{landing_at, landing}

-- At a child: its prefix first differs from the rest of the word at index 2 or later, or the walk
-- goes on to such a child.
unfoldable pub late_at : (Node → List ℕ → Bool) → List ℕ → Node → Bool
late_at go sub m = elim (diff (prefix m) sub) [
  | none ↦
      let deeper = go m (drop (length (prefix m)) sub) in
      if ltb (length (prefix m)) (length sub) then deeper else false
  | some i ↦ ltb 1 i
]

unfoldable pub diverges_late : ℕ → Node → List ℕ → Bool
unfolding late_at
diverges_late zero n w = false
diverges_late (suc fuel) n [] = false
diverges_late (suc fuel) n (x ∷ w) = elim (next x (children n)) [
  | none ↦ false
  | some m ↦ late_at (λ m' rest. diverges_late fuel m' rest) (x ∷ w) m
]

-- A split at index 1 is followed by a new child.
next-split :
    (m : Node) (y x : ℕ) (w : List ℕ)
    → diff (prefix m) (x ∷ y ∷ w) ≡ some 1
    → next y (children (split m 1)) ≡ none
unfolding split next
next-split (node p c ch) y x w e = rw (diff-one x y p w e)

landing-split :
    (fuel x : ℕ) (m : Node) (w : List ℕ)
    → fronts x (prefix m) ≡ true
    → diff (prefix m) (x ∷ w) ≡ some 1
    → length w ≤ fuel
    → take 1 (prefix m) ++ landing fuel (split m 1) w ≡ x ∷ w
unfolding landing
landing-split fuel x m [] front e l = absurd (omega (arith, diff-some x 1 (prefix m) [] e))
landing-split zero x m (y ∷ w) front e l = absurd (omega arith)
landing-split (suc fuel) x m (y ∷ w) front e l =
    rw (landing, next-split m y x w e) (rw (take_one x (prefix m) front))
  where
    take_one : (x : ℕ) (p : List ℕ) → fronts x p ≡ true → take 1 p ≡ x ∷ []
    take_one x [] h = cc
    take_one x (y ∷ p) h = ground arith

module _ (fuel : ℕ) (land : Node → List ℕ → List ℕ) (late : Node → List ℕ → Bool) where
  pub landing_at-eq :
      ((m : Node) (rest : List ℕ)
        → length rest ≤ fuel
        → IsTree m
        → late m rest ≡ false
        → land m rest ≡ rest)
      → ((m : Node) (x : ℕ) (w : List ℕ)
          → fronts x (prefix m) ≡ true
          → diff (prefix m) (x ∷ w) ≡ some 1
          → length w ≤ fuel
          → take 1 (prefix m) ++ land (split m 1) w ≡ x ∷ w)
      → (x : ℕ) (w : List ℕ) (m : Node) → length (x ∷ w) ≤ suc fuel
      → fronts x (prefix m) ≡ true
      → IsTree m
      → late_at late (x ∷ w) m ≡ false
      → landing_at land (x ∷ w) m ≡ x ∷ w
  unfolding landing_at late_at
  landing_at-eq ih one x w m l front t h = elim (Option-cases (diff (prefix m) (x ∷ w))) [
    | inr (i, d) ↦
        let at_one : i ≡ 1 = ground (arith, diff-some x i (prefix m) w d) in
        rw (landing_at, d, at_one) (one m x w front (d ∙ ap some at_one) (omega arith))
    | inl d ↦
        let pos = fronts_pos x (prefix m) front in
        let rest = drop (length (prefix m)) (x ∷ w) in
        rw (landing_at, d)
          (ground
            (arith, diff-none x (prefix m) w, ih m rest, length-drop (length (prefix m)) (x ∷ w)))
  ]

pub landing-eq :
    (fuel : ℕ) (n : Node) (w : List ℕ)
    → length w ≤ fuel
    → IsTree n
    → diverges_late fuel n w ≡ false
    → landing fuel n w ≡ w
unfolding landing diverges_late IsTree
landing-eq zero n w l t h = refl
landing-eq (suc fuel) n [] l t h = refl
landing-eq (suc fuel) (node p c ch) (x ∷ w) l t h = elim (Option-cases (next x ch)) [
  | inl e ↦ rw (landing, e)
  | inr (m, e) ↦
      let (front, tree) = next-some x ch m t e in
      rw (landing, e)
        (landing_at-eq fuel (λ m rest. landing fuel m rest) (λ m rest. diverges_late fuel m rest)
          (landing-eq fuel) (λ m x w. landing-split fuel x m w) x w m l front tree
          (rw (diverges_late, e) at h))
]

-- ===== src/Wl/Node/Lost.antt =====
-- What becomes of a word for which `Node::Insert` of p1/wl.cpp diverges late: its count is kept under
-- a longer word.
use cs564_projects.Prelude.{
  ℕ, zero, suc, ◌+◌, ◌≤◌, ◌<◌, Bool, true, false, List, [], ◌∷◌, ◌++◌, some, ltb, if◌then◌else◌,
  length, take, drop, ◌≡◌, ap, ◌∙◌, arith, inl, inr, Option-cases, length-drop, length-take,
  length-append, ltb→lt, lt→ltb,
}
use cs564_projects.Wl.Node.{Node, node, prefix, children, next, fronts, diff, split}
use cs564_projects.Wl.Node.Spec.{strip, below, entry, IsTree}
use cs564_projects.Wl.Node.Strings.{diff-some, diff-none, diff-strip, strip-append}
use cs564_projects.Wl.Node.Tree.{below_all-next, next-some, fronts_pos}
use cs564_projects.Wl.Node.Landing.{landing_at, landing}
use cs564_projects.Wl.Node.Late.{late_at, diverges_late}

false-true : false ≡ true → ⊥
false-true h = cc

length-take_lt : (i : ℕ) (p q : List ℕ) → i < length p → length (take i p ++ q) ≡ i + length q
length-take_lt i p q h = omega (arith, length-append (take i p) q, length-take i p)

module _ (land : Node → List ℕ → List ℕ) (late : Node → List ℕ → Bool)
    (ih : (m : Node) (rest : List ℕ) → length rest ≤ length (land m rest)) where
  length-landing_at :
      (x : ℕ) (w : List ℕ) (m : Node) → length (x ∷ w) ≤ length (landing_at land (x ∷ w) m)
  unfolding landing_at
  length-landing_at x w m = elim (Option-cases (diff (prefix m) (x ∷ w))) [
    | inr (i, d) ↦
        rw (landing_at, d)
          (omega (
            arith,
            diff-some x i (prefix m) w d,
            length-take_lt i (prefix m) (land (split m i) w),
            ih (split m i) w,
          ))
    | inl d ↦
        let rest = drop (length (prefix m)) (x ∷ w) in
        rw (landing_at, d)
          (ground (
            arith,
            length-append (prefix m) (land m rest),
            ih m rest,
            length-drop (length (prefix m)) (x ∷ w),
          ))
  ]

  landing_at_longer :
      ((m : Node) (rest : List ℕ) → late m rest ≡ true → length rest < length (land m rest))
      → (x : ℕ) (w : List ℕ) (m : Node) → late_at late (x ∷ w) m ≡ true
      → length (x ∷ w) < length (landing_at land (x ∷ w) m)
  unfolding landing_at late_at
  landing_at_longer strict x w m h = elim (Option-cases (diff (prefix m) (x ∷ w))) [
    | inr (i, d) ↦
        let far : 1 < i = ltb→lt 1 i (rw (late_at, d) at h) in
        rw (landing_at, d)
          (omega (
            arith,
            diff-some x i (prefix m) w d,
            length-take_lt i (prefix m) (land (split m i) w),
            ih (split m i) w,
          ))
    | inl d ↦
        let rest = drop (length (prefix m)) (x ∷ w) in
        rw (landing_at, d)
          (ground (
            arith,
            length-append (prefix m) (land m rest),
            strict m rest,
            length-drop (length (prefix m)) (x ∷ w),
          ))
  ]

length-landing : (fuel : ℕ) (n : Node) (w : List ℕ) → length w ≤ length (landing fuel n w)
unfolding landing
length-landing zero n w = omega arith
length-landing (suc fuel) n [] = omega arith
length-landing (suc fuel) n (x ∷ w) = elim (Option-cases (next x (children n))) [
  | inl e ↦ rw (landing, e) (omega arith)
  | inr (m, e) ↦
      rw (landing, e)
        (length-landing_at (λ m rest. landing fuel m rest) (λ m rest. diverges_late fuel m rest)
          (length-landing fuel) x w m)
]

pub landing_longer :
    (fuel : ℕ) (n : Node) (w : List ℕ)
    → diverges_late fuel n w ≡ true
    → length w < length (landing fuel n w)
unfolding landing diverges_late
landing_longer zero n w h = cc
landing_longer (suc fuel) n [] h = cc
landing_longer (suc fuel) n (x ∷ w) h = elim (Option-cases (next x (children n))) [
  | inl e ↦ absurd (false-true (rw (diverges_late, e) at h))
  | inr (m, e) ↦
      rw (landing, e)
        (landing_at_longer (λ m rest. landing fuel m rest) (λ m rest. diverges_late fuel m rest)
          (length-landing fuel) (landing_longer fuel) x w m (rw (diverges_late, e) at h))
]

-- The word that diverges late is not in the tree.
late_at-entry :
    (fuel : ℕ)
    → ((m : Node) (rest : List ℕ)
        → length rest ≤ fuel
        → IsTree m
        → diverges_late fuel m rest ≡ true
        → below m rest ≡ [])
    → (x : ℕ) (w : List ℕ) (m : Node) → length (x ∷ w) ≤ suc fuel
    → fronts x (prefix m) ≡ true
    → IsTree m
    → late_at (λ m' rest. diverges_late fuel m' rest) (x ∷ w) m ≡ true
    → entry m (x ∷ w) ≡ []
unfolding late_at
late_at-entry fuel ih x w m l front t h = elim (Option-cases (diff (prefix m) (x ∷ w))) [
  | inr (i, d) ↦ rw (entry, diff-strip x i (prefix m) w d)
  | inl d ↦
      let pos = fronts_pos x (prefix m) front in
      let rest = drop (length (prefix m)) (x ∷ w) in
      let longer : length (prefix m) < length (x ∷ w) = late_longer _ (rw (late_at, d) at h) in
      let eq = diff-none x (prefix m) w front d (omega arith) in
      let strips : strip (prefix m) (x ∷ w) ≡ some rest =
        ap (strip (prefix m)) eq ∙ strip-append (prefix m) rest in
      rw (entry, strips)
        (ih m rest (omega (arith, length-drop (length (prefix m)) (x ∷ w))) t
          (rw (late_at, d, lt→ltb _ _ longer) at h))
]
  where
    late_longer :
        (b : Bool)
        → (if ltb (length (prefix m)) (length (x ∷ w)) then b else false) ≡ true
        → length (prefix m) < length (x ∷ w)
    late_longer b e = ground arith

pub late-below :
    (fuel : ℕ) (n : Node) (w : List ℕ)
    → length w ≤ fuel
    → IsTree n
    → diverges_late fuel n w ≡ true
    → below n w ≡ []
unfolding diverges_late IsTree below
late-below zero n w l t h = cc
late-below (suc fuel) n [] l t h = cc
late-below (suc fuel) (node p c ch) (x ∷ w) l t h = elim (Option-cases (next x ch)) [
  | inl e ↦ absurd (false-true (rw (diverges_late, e) at h))
  | inr (m, e) ↦
      let (front, tree) = next-some x ch m t e in
      rw (below_all-next x w ch t, e)
        (late_at-entry fuel (late-below fuel) x w m l front tree (rw (diverges_late, e) at h))
]

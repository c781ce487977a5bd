-- ===== src/Index/Kids/Keep.antt =====
-- A child replaced by what an insertion under it leaves: bounds, pages, and properties of each child.
use cs564_projects.Prelude.{
  ℕ, ◌+◌, ◌≤◌, List, [], ◌∷◌, ◌++◌, map, ltb, if◌then◌else◌, ◌≡◌, refl, ap, ◌∙◌, arith, Bool-cases,
  inl, inr,
}
use cs564_projects.Index.Entry.{Entry, insert_for}
use cs564_projects.Index.Kids.{summed, AllKids, Ranged, child_at, replace, paged, child_at-summed}

module _ {T : Type 0} where
  Ranged-append :
      (R : ℕ → ℕ → T → Type 0) (lo mid hi : ℕ) (t : T) (more : List (Entry T)) (u : T)
      (ks : List (Entry T))
      → Ranged R lo mid t more
      → Ranged R mid hi u ks
      → Ranged R lo hi t (more ++ (record { key = mid; value = u } ∷ ks))
  Ranged-append R lo mid hi t [] u ks a b = (a, b)
  Ranged-append R lo mid hi t (m ∷ more) u ks a b =
      (a.0, Ranged-append R m.key mid hi m.value more u ks a.1 b)

  pub replace-Ranged :
      (R : ℕ → ℕ → T → Type 0) (lo hi key : ℕ) (t : T) (ks : List (Entry T)) (c : T)
      (more : List (Entry T))
      → lo ≤ key
      → key ≤ hi
      → Ranged R lo hi t ks
      → ((a b : ℕ) → a ≤ key → key ≤ b → R a b (child_at key t ks) → Ranged R a b c more)
      → Ranged R lo hi (replace key t ks c more).0 (replace key t ks c more).1
  replace-Ranged R lo hi key t [] c more l m r f = f lo hi l m r
  replace-Ranged R lo hi key t (k ∷ ks) c more l m r f = elim (Bool-cases (ltb key k.key)) [
    | inl e ↦
        rw e (
          Ranged-append R lo k.key hi c more k.value ks (f lo k.key l (ground arith) (rw e r.0))
            r.1)
    | inr e ↦
        let go = replace-Ranged R k.key hi key k.value ks c more (ground arith) m r.1 in
        rw e (r.0, go (λ a b x y z. f a b x y (rw e z)))
  ]

  -- A property holds of each child if it holds of the new ones, and is kept by those beside the child.
  module _ (P Q : T → Type 0) (cnt : ℕ → T → ℕ) (bound : ℕ → ℕ) (c : T)
      (more : List (Entry T)) where
    abbrev Keeps : T → Type 0
    Keeps old = (x : T) → P x → ((r : ℕ) → cnt r x + cnt r old ≤ bound r) → Q x

    beside :
        (old : T) (ks : List (Entry T))
        → Keeps old
        → AllKids P ks
        → ((r : ℕ) → cnt r old + summed (cnt r) ks ≤ bound r)
        → AllKids Q ks
    beside old [] keep all l = tt
    beside old (k ∷ ks) keep all l = (
      keep k.value all.0 (λ r. omega (arith, l r)),
      beside old ks keep all.1 (λ r. omega (arith, l r)),
    )

    AllKids-append : (xs ys : List (Entry T)) → AllKids Q xs → AllKids Q ys → AllKids Q (xs ++ ys)
    AllKids-append [] ys a b = b
    AllKids-append (x ∷ xs) ys a b = (a.0, AllKids-append xs ys a.1 b)

    pub replace-AllKids :
        (key : ℕ) (t : T) (ks : List (Entry T))
        → Keeps (child_at key t ks)
        → P t
        → AllKids P ks
        → ((r : ℕ) → cnt r t + summed (cnt r) ks ≤ bound r)
        → Q c
        → AllKids Q more
        → Q (replace key t ks c more).0 × AllKids Q (replace key t ks c more).1
    replace-AllKids key t [] keep p all l q qs = (q, qs)
    replace-AllKids key t (k ∷ ks) keep p all l q qs = elim (Bool-cases (ltb key k.key)) [
      | inl e ↦
          let keep' : Keeps t = λ x px lx. keep x px (rw e lx) in
          rw e (q, AllKids-append more (k ∷ ks) qs (beside t (k ∷ ks) keep' all l))
      | inr e ↦
          let keep' : Keeps (child_at key k.value ks) = λ x px lx. keep x px (rw e lx) in
          let rest =
            replace-AllKids key k.value ks keep' all.0 all.1 (λ r. omega (arith, l r)) q qs in
          let own = keep' t p (λ r. omega (arith, l r, child_at-summed (cnt r) key k.value ks)) in
          rw e (own, rest)
    ]

  module _ (root : T → ℕ) (key : ℕ) (c : T) where
    -- No new child: the keys and pages are as before.
    pub replace-none :
        (t : T) (ks : List (Entry T))
        → root c ≡ root (child_at key t ks)
        → (root (replace key t ks c []).0 ≡ root t)
          × (map (paged root) (replace key t ks c []).1 ≡ map (paged root) ks)
    replace-none t [] e = (e, refl)
    replace-none t (k ∷ ks) e = elim (Bool-cases (ltb key k.key)) [
      | inl l ↦ rw l (e ∙ ap (λ b. root (if b then t else child_at key k.value ks)) l, refl)
      | inr l ↦
          let e' = e ∙ ap (λ b. root (if b then t else child_at key k.value ks)) l in
          let (a, b) = replace-none k.value ks e' in rw (l, a, b) (refl, refl)
    ]

    -- One new child: its key and page are put in place.
    pub replace-one :
        (t : T) (ks : List (Entry T)) (m : Entry T)
        → root c ≡ root (child_at key t ks)
        → (root (replace key t ks c (m ∷ [])).0 ≡ root t)
          × (map (paged root) (replace key t ks c (m ∷ [])).1
              ≡ insert_for key (paged root m) (map (paged root) ks))
    replace-one t [] m e = (e, refl)
    replace-one t (k ∷ ks) m e = elim (Bool-cases (ltb key k.key)) [
      | inl l ↦ rw l (e ∙ ap (λ b. root (if b then t else child_at key k.value ks)) l, refl)
      | inr l ↦
          let e' = e ∙ ap (λ b. root (if b then t else child_at key k.value ks)) l in
          let (a, b) = replace-one k.value ks m e' in rw (l, a, b) (refl, refl)
    ]

-- ===== src/Index/Kids/Replace.antt =====
-- A child replaced by what an insertion under it leaves: keys, order, and what is under the children.
use cs564_projects.Prelude.{
  ℕ, ◌+◌, ◌≤◌, true, false, List, [], ◌∷◌, ◌++◌, ltb, if◌then◌else◌, ◌≡◌, refl, ap, sym, ◌∙◌, arith,
  Bool-cases, inl, inr,
}
use cs564_projects.Index.Entry.{Entry, ordered_insert, append_assoc}
use cs564_projects.Index.Entry.Order.{InOrder, ordered_insert-append, ordered_insert_front}
use cs564_projects.Index.Kids.{
  joined, summed, Ranged, child_at, replace, Ranged-InOrder, append_nil,
}

module _ {T : Type 0} where
  joined-append {ℓ} :
      {E : Type ℓ} (f : T → List E) (xs ys : List (Entry T))
      → joined f (xs ++ ys) ≡ joined f xs ++ joined f ys
  joined-append f [] ys = refl
  joined-append f (x ∷ xs) ys =
      ap (λ l. f x.value ++ l) (joined-append f xs ys)
      ∙ sym (append_assoc (f x.value) (joined f xs) (joined f ys))

  summed-append :
      (f : T → ℕ) (xs ys : List (Entry T)) → summed f (xs ++ ys) ≡ summed f xs + summed f ys
  summed-append f [] ys = omega arith
  summed-append f (x ∷ xs) ys = omega (arith, summed-append f xs ys)

  pub replace-summed :
      (f : T → ℕ) (key : ℕ) (t : T) (ks : List (Entry T)) (c : T) (more : List (Entry T))
      → f (replace key t ks c more).0 + summed f (replace key t ks c more).1 + f (child_at key t ks)
        ≡ f t + summed f ks + f c + summed f more
  replace-summed f key t [] c more = omega arith
  replace-summed f key t (k ∷ ks) c more = elim (Bool-cases (ltb key k.key)) [
    | inl e ↦ rw e (omega (arith, summed-append f more (k ∷ ks)))
    | inr e ↦ rw e (omega (arith, replace-summed f key k.value ks c more))
  ]

  -- An insertion under the child is one under all children.
  pub replace-joined {ℓ} :
      {V : Type ℓ} (R : ℕ → ℕ → T → Type 0) (flat : T → List (Entry V))
      (sorted : (lo hi : ℕ) (t : T) → R lo hi t → InOrder lo hi (flat t)) (lo hi : ℕ) (e : Entry V)
      (t : T) (ks : List (Entry T)) (c : T) (more : List (Entry T))
      → Ranged R lo hi t ks
      → flat c ++ joined flat more ≡ ordered_insert e (flat (child_at e.key t ks))
      → flat (replace e.key t ks c more).0 ++ joined flat (replace e.key t ks c more).1
        ≡ ordered_insert e (flat t ++ joined flat ks)
  replace-joined R flat sorted lo hi e t [] c more r same =
      same ∙ ap (ordered_insert e) (sym (append_nil (flat t)))
  replace-joined R flat sorted lo hi e t (k ∷ ks) c more r same =
      elim (Bool-cases (ltb e.key k.key)) [
        | inl l ↦
            let behind = Ranged-InOrder R flat sorted k.key hi k.value ks r.1 in
            let rest = flat k.value ++ joined flat ks in
            let here : flat c ++ joined flat more ≡ ordered_insert e (flat t) = first l same in
            rw l (
              ap (λ xs. flat c ++ xs) (joined-append flat more (k ∷ ks))
              ∙ sym (append_assoc (flat c) (joined flat more) rest)
              ∙ ap (λ xs. xs ++ rest) here
              ∙ sym (ordered_insert_front k.key hi e (flat t) rest behind l))
        | inr l ↦
            let below : k.key ≤ e.key = ground arith in
            let rest = flat k.value ++ joined flat ks in
            rw l (
              ap (λ xs. flat t ++ xs)
                (replace-joined R flat sorted k.key hi e k.value ks c more r.1 (later l same))
              ∙ sym (ordered_insert-append lo k.key e (flat t) rest (sorted lo k.key t r.0) below))
      ]
    where
      first :
          ltb e.key k.key ≡ true
          → flat c ++ joined flat more ≡ ordered_insert e (flat (child_at e.key t (k ∷ ks)))
          → flat c ++ joined flat more ≡ ordered_insert e (flat t)
      first l same =
          same ∙ ap (λ b. ordered_insert e (flat (if b then t else child_at e.key k.value ks))) l

      later :
          ltb e.key k.key ≡ false
          → flat c ++ joined flat more ≡ ordered_insert e (flat (child_at e.key t (k ∷ ks)))
          → flat c ++ joined flat more ≡ ordered_insert e (flat (child_at e.key k.value ks))
      later l same =
          same ∙ ap (λ b. ordered_insert e (flat (if b then t else child_at e.key k.value ks))) l

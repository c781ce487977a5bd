-- ===== src/Index/Array/Laws.antt =====
-- Arrays of the nodes of p3/src/btree.cpp, into which a value is put.
use cs564_projects.Prelude.{
  ℕ, suc, ◌+◌, ◌-◌, ◌≤◌, List, [], ◌∷◌, ◌++◌, ltb, set, drop, length, ◌≡◌, refl, ap, ◌∙◌, arith,
  take-length-append, Bool-cases, inl, inr,
}
use cs564_projects.Index.Array.{write_all, copy_array, put_in}

module _ {ℓ} {A : Type ℓ} where
  pub write_all-cons :
      (x : A) (xs : List A) (i : ℕ) (ys : List A)
      → write_all (x ∷ xs) (suc i) ys ≡ x ∷ write_all xs i ys
  unfolding write_all
  write_all-cons x xs i [] = refl
  write_all-cons x xs i (y ∷ ys) = write_all-cons x (set xs i y) (suc i) ys

  -- The values take the places of as many others.
  pub write_all_front :
      (xs ys rest : List A) → length xs ≡ length ys → write_all (xs ++ rest) 0 ys ≡ ys ++ rest
  unfolding write_all
  write_all_front [] [] rest e = refl
  write_all_front [] (y ∷ ys) rest e = absurd (omega arith)
  write_all_front (x ∷ xs) [] rest e = absurd (omega arith)
  write_all_front (x ∷ xs) (y ∷ ys) rest e =
      write_all-cons y (xs ++ rest) 0 ys ∙ ap (◌∷◌ y) (write_all_front xs ys rest (omega arith))

  -- The values `b` move one place up, over `z`.
  shifted :
      (b : List A) (z x : A) (rest : List A)
      → set (write_all (b ++ (z ∷ rest)) 1 b) 0 x ≡ x ∷ (b ++ rest)
  unfolding write_all
  shifted [] z x rest = refl
  shifted (b ∷ bs) z x rest =
      let moved : write_all (bs ++ (z ∷ rest)) 0 (b ∷ bs) ≡ b ∷ (bs ++ rest) = over bs b z rest in
      rw (write_all-cons b (bs ++ (z ∷ rest)) 0 (b ∷ bs), moved)
    where
      over :
          (bs : List A) (b z : A) (rest : List A)
          → write_all (bs ++ (z ∷ rest)) 0 (b ∷ bs) ≡ b ∷ (bs ++ rest)
      over [] b z rest = refl
      over (c ∷ cs) b z rest =
          write_all-cons b (cs ++ (z ∷ rest)) 0 (c ∷ cs) ∙ ap (◌∷◌ b) (over cs c z rest)

  placed :
      (a b : List A) (z x : A) (rest : List A)
      → set (write_all (a ++ (b ++ (z ∷ rest))) (suc (length a)) b) (length a) x
        ≡ a ++ (x ∷ (b ++ rest))
  placed [] b z x rest = shifted b z x rest
  placed (y ∷ a) b z x rest =
      rw (write_all-cons y (a ++ (b ++ (z ∷ rest))) (suc (length a)) b)
        (ap (◌∷◌ y) (placed a b z x rest))

  drop-length-append : (a xs : List A) → drop (length a) (a ++ xs) ≡ xs
  drop-length-append [] xs = refl
  drop-length-append (y ∷ a) xs = drop-length-append a xs

  -- A value is put between `a` and `b`, over the first place after them.
  pub put_in-append :
      (occupancy : ℕ) (a b : List A) (z x : A) (rest : List A)
      → length a + length b ≤ occupancy
      → put_in occupancy (length a) (length a + length b) x (a ++ (b ++ (z ∷ rest)))
        ≡ a ++ (x ∷ (b ++ rest))
  unfolding put_in copy_array write_all
  put_in-append occupancy a b z x rest l = elim (Bool-cases (ltb (length a) occupancy)) [
    | inl e ↦
        let n : length a + length b - length a ≡ length b = omega arith in
        rw (e, n, drop-length-append a (b ++ (z ∷ rest)), take-length-append b (z ∷ rest))
          (placed a b z x rest)
    | inr e ↦ rw e (at_end b (ground arith))
  ]
    where
      at_end :
          (b : List A)
          → length b ≡ 0
          → set (a ++ (b ++ (z ∷ rest))) (length a) x ≡ a ++ (x ∷ (b ++ rest))
      at_end [] e = placed a [] z x rest
      at_end (y ∷ ys) e = absurd (omega arith)

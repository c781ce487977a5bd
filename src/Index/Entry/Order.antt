-- ===== src/Index/Entry/Order.antt =====
-- Entries in the order of their keys, between two bounds.
use cs564_projects.Prelude.{
  ℕ, ◌≤◌, true, false, List, [], ◌∷◌, ◌++◌, ltb, ◌≡◌, refl, ap, arith, Bool-cases, inl, inr,
}
use cs564_projects.Index.Entry.{Entry, ordered_insert}

module _ {ℓ} {V : Type ℓ} where
  -- The keys are in order, none less than `lo` or greater than `hi`.
  abbrev pub InOrder : ℕ → ℕ → List (Entry V) → Type 0
  InOrder lo hi [] = lo ≤ hi
  InOrder lo hi (x ∷ es) = (lo ≤ x.key) × InOrder x.key hi es

  pub InOrder-le : (lo hi : ℕ) (es : List (Entry V)) → InOrder lo hi es → lo ≤ hi
  InOrder-le lo hi [] o = o
  InOrder-le lo hi (x ∷ es) o = omega (arith, o.0, InOrder-le x.key hi es o.1)

  pub InOrder-from :
      (lo a hi : ℕ) (es : List (Entry V)) → a ≤ lo → InOrder lo hi es → InOrder a hi es
  InOrder-from lo a hi [] l o = omega arith
  InOrder-from lo a hi (x ∷ es) l o = (omega (arith, o.0), o.1)

  pub InOrder-append :
      (lo mid hi : ℕ) (xs ys : List (Entry V))
      → InOrder lo mid xs
      → InOrder mid hi ys
      → InOrder lo hi (xs ++ ys)
  InOrder-append lo mid hi [] ys o p = InOrder-from mid lo hi ys o p
  InOrder-append lo mid hi (x ∷ xs) ys o p = (o.0, InOrder-append x.key mid hi xs ys o.1 p)

  pub ordered_insert-InOrder :
      (lo hi : ℕ) (e : Entry V) (es : List (Entry V))
      → lo ≤ e.key
      → e.key ≤ hi
      → InOrder lo hi es
      → InOrder lo hi (ordered_insert e es)
  ordered_insert-InOrder lo hi e [] l m o = (l, m)
  ordered_insert-InOrder lo hi e (x ∷ es) l m o = elim (Bool-cases (ltb e.key x.key)) [
    | inl t ↦ rw t (l, (ground arith, o.1))
    | inr t ↦ rw t (o.0, ordered_insert-InOrder x.key hi e es (ground arith) m o.1)
  ]

  -- Behind entries that are not greater, and before entries that are all greater.
  pub ordered_insert-append :
      (lo mid : ℕ) (e : Entry V) (xs ys : List (Entry V))
      → InOrder lo mid xs
      → mid ≤ e.key
      → ordered_insert e (xs ++ ys) ≡ xs ++ ordered_insert e ys
  ordered_insert-append lo mid e [] ys o l = refl
  ordered_insert-append lo mid e (x ∷ xs) ys o l =
      let m = InOrder-le x.key mid xs o.1 in
      let t : ltb e.key x.key ≡ false = ground arith in
      rw t (ap (◌∷◌ x) (ordered_insert-append x.key mid e xs ys o.1 l))

  pub ordered_insert_front :
      (lo hi : ℕ) (e : Entry V) (xs ys : List (Entry V))
      → InOrder lo hi ys
      → ltb e.key lo ≡ true
      → ordered_insert e (xs ++ ys) ≡ ordered_insert e xs ++ ys
  ordered_insert_front lo hi e [] [] o l = refl
  ordered_insert_front lo hi e [] (y ∷ ys) o l =
      let t : ltb e.key y.key ≡ true = ground (arith, o.0) in rw t
  ordered_insert_front lo hi e (x ∷ xs) ys o l = elim (Bool-cases (ltb e.key x.key)) [
    | inl t ↦ rw t
    | inr t ↦ rw t (ap (◌∷◌ x) (ordered_insert_front lo hi e xs ys o l))
  ]

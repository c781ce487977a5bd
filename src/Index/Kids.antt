-- ===== src/Index/Kids.antt =====
-- A first child and others with their least keys, as the inner nodes of p3/src/btree.cpp have them: the
-- child that a key leads to, and that child replaced by what an insertion under it leaves.
pub mod Replace
pub mod Keep
pub mod Cut
use cs564_projects.Prelude.{
  ℕ, suc, ◌+◌, ◌≤◌, ◌<◌, true, false, List, [], ◌∷◌, ◌++◌, map, ltb, if◌then◌else◌, get_or, length,
  ◌≡◌, refl, ap, sym, ◌∙◌, arith, Bool-cases, inl, inr,
}
use cs564_projects.Index.Entry.{Entry, values, before, append_assoc}
use cs564_projects.Index.Entry.Order.{InOrder, InOrder-append}

pub append_nil {ℓ} : {A : Type ℓ} (xs : List A) → xs ++ [] ≡ xs
append_nil [] = refl
append_nil (x ∷ xs) = ap (◌∷◌ x) (append_nil xs)

module _ {T : Type 0} where
  abbrev pub joined {ℓ} : {E : Type ℓ} → (T → List E) → List (Entry T) → List E
  joined f [] = []
  joined f (k ∷ ks) = f k.value ++ joined f ks

  abbrev pub summed : (T → ℕ) → List (Entry T) → ℕ
  summed f [] = 0
  summed f (k ∷ ks) = f k.value + summed f ks

  abbrev pub AllKids : (T → Type 0) → List (Entry T) → Type 0
  AllKids P [] = Unit
  AllKids P (k ∷ ks) = P k.value × AllKids P ks

  -- The keys separate what is under the children.
  abbrev pub Ranged : (ℕ → ℕ → T → Type 0) → ℕ → ℕ → T → List (Entry T) → Type 0
  Ranged R lo hi t [] = R lo hi t
  Ranged R lo hi t (k ∷ ks) = R lo k.key t × Ranged R k.key hi k.value ks

  abbrev pub child_at : ℕ → T → List (Entry T) → T
  child_at key t [] = t
  child_at key t (k ∷ ks) = if ltb key k.key then t else child_at key k.value ks

  -- The child for the key replaced by `c` and the children `more` behind it.
  abbrev pub replace : ℕ → T → List (Entry T) → T → List (Entry T) → T × List (Entry T)
  replace key t [] c more = (c, more)
  replace key t (k ∷ ks) c more = if ltb key k.key then (c, more ++ (k ∷ ks)) else (
    t,
    record { key = k.key; value = (replace key k.value ks c more).0 }
        ∷ (replace key k.value ks c more).1,
  )

  -- The keys with the pages of the children.
  abbrev pub paged : (T → ℕ) → Entry T → Entry ℕ
  paged root k = record { key = k.key; value = root k.value }

  pub child_at-AllKids :
      (P : T → Type 0) (key : ℕ) (t : T) (ks : List (Entry T))
      → P t
      → AllKids P ks
      → P (child_at key t ks)
  child_at-AllKids P key t [] p all = p
  child_at-AllKids P key t (k ∷ ks) p all = elim (Bool-cases (ltb key k.key)) [
    | inl e ↦ rw e p
    | inr e ↦ rw e (child_at-AllKids P key k.value ks all.0 all.1)
  ]

  pub child_at-summed :
      (f : T → ℕ) (key : ℕ) (t : T) (ks : List (Entry T))
      → f (child_at key t ks) ≤ f t + summed f ks
  child_at-summed f key t [] = omega arith
  child_at-summed f key t (k ∷ ks) = elim (Bool-cases (ltb key k.key)) [
    | inl e ↦ rw e (omega arith)
    | inr e ↦ rw e (omega (arith, child_at-summed f key k.value ks))
  ]

  pub child_at-page :
      (root : T → ℕ) (key : ℕ) (t : T) (ks : List (Entry T)) (rest : List ℕ)
      → get_or
          (root t ∷ (values (map (paged root) ks) ++ rest))
          (length (before key (map (paged root) ks)))
          0
        ≡ root (child_at key t ks)
  child_at-page root key t [] rest = refl
  child_at-page root key t (k ∷ ks) rest = elim (Bool-cases (ltb key k.key)) [
    | inl e ↦ rw e
    | inr e ↦ rw e (child_at-page root key k.value ks rest)
  ]

  pub child_at-Ranged :
      (R : ℕ → ℕ → T → Type 0) (lo hi key : ℕ) (t : T) (ks : List (Entry T))
      → Ranged R lo hi t ks
      → (a : ℕ) × (b : ℕ) × R a b (child_at key t ks)
  child_at-Ranged R lo hi key t [] r = (lo, hi, r)
  child_at-Ranged R lo hi key t (k ∷ ks) r = elim (Bool-cases (ltb key k.key)) [
    | inl e ↦ rw e (lo, k.key, r.0)
    | inr e ↦ rw e (child_at-Ranged R k.key hi key k.value ks r.1)
  ]

  pub Ranged-InOrder {ℓ} :
      {V : Type ℓ} (R : ℕ → ℕ → T → Type 0) (flat : T → List (Entry V))
      (sorted : (lo hi : ℕ) (t : T) → R lo hi t → InOrder lo hi (flat t)) (lo hi : ℕ) (t : T)
      (ks : List (Entry T))
      → Ranged R lo hi t ks
      → InOrder lo hi (flat t ++ joined flat ks)
  Ranged-InOrder R flat sorted lo hi t [] r = rw (append_nil (flat t)) (sorted lo hi t r)
  Ranged-InOrder R flat sorted lo hi t (k ∷ ks) r =
      InOrder-append lo k.key hi (flat t) (flat k.value ++ joined flat ks) (sorted lo k.key t r.0)
        (Ranged-InOrder R flat sorted k.key hi k.value ks r.1)

  -- A property that is kept while something is so of the pages of a child.
  pub AllKids-frame :
      (P Q : T → Type 0) (cnt : ℕ → T → ℕ) (ok : ℕ → Type 0) (ks : List (Entry T))
      → ((x : T) → ((r : ℕ) → 0 < cnt r x → ok r) → P x → Q x)
      → ((r : ℕ) → 0 < summed (cnt r) ks → ok r)
      → AllKids P ks
      → AllKids Q ks
  AllKids-frame P Q cnt ok [] f same all = tt
  AllKids-frame P Q cnt ok (k ∷ ks) f same all = (
    f k.value (λ r l. same r (omega arith)) all.0,
    AllKids-frame P Q cnt ok ks f (λ r l. same r (omega arith)) all.1,
  )

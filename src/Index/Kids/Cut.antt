-- ===== src/Index/Kids/Cut.antt =====
-- The children of a node in two parts, around one in the middle.
use cs564_projects.Prelude.{
  ℕ, zero, suc, ◌+◌, List, [], ◌∷◌, ◌++◌, take, drop, ◌≡◌, ap, sym, ◌∙◌, arith,
}
use mathlib.Core.Path.{subst}
use cs564_projects.Index.Entry.{Entry, append_assoc}
use cs564_projects.Index.Kids.{joined, summed, AllKids, Ranged}

module _ {T : Type 0} (m : Entry T) where
  -- `m` is the child at place `n`.
  pub cut-joined {ℓ} :
      {E : Type ℓ} (f : T → List E) (n : ℕ) (ks : List (Entry T))
      → drop n ks ≡ m ∷ drop (suc n) ks
      → joined f ks ≡ joined f (take n ks) ++ (f m.value ++ joined f (drop (suc n) ks))
  cut-joined f zero ks e = ap (joined f) e
  cut-joined f (suc n) [] e = absurd (cc)
  cut-joined f (suc n) (k ∷ ks) e =
      ap (λ l. f k.value ++ l) (cut-joined f n ks e)
      ∙ sym (
          append_assoc (f k.value) (joined f (take n ks)) (f m.value ++ joined f (drop (suc n) ks)))

  pub cut-summed :
      (f : T → ℕ) (n : ℕ) (ks : List (Entry T))
      → drop n ks ≡ m ∷ drop (suc n) ks
      → summed f ks ≡ summed f (take n ks) + (f m.value + summed f (drop (suc n) ks))
  cut-summed f zero ks e = ap (summed f) e ∙ omega arith
  cut-summed f (suc n) [] e = absurd (cc)
  cut-summed f (suc n) (k ∷ ks) e = omega (arith, cut-summed f n ks e)

  pub cut-AllKids :
      (P : T → Type 0) (n : ℕ) (ks : List (Entry T))
      → drop n ks ≡ m ∷ drop (suc n) ks
      → AllKids P ks
      → AllKids P (take n ks) × P m.value × AllKids P (drop (suc n) ks)
  cut-AllKids P zero ks e all = let both = subst (AllKids P) e all in (tt, both.0, both.1)
  cut-AllKids P (suc n) [] e all = absurd (cc)
  cut-AllKids P (suc n) (k ∷ ks) e all =
      let rest = cut-AllKids P n ks e all.1 in ((all.0, rest.0), rest.1, rest.2)

  pub cut-Ranged :
      (R : ℕ → ℕ → T → Type 0) (lo hi n : ℕ) (t : T) (ks : List (Entry T))
      → drop n ks ≡ m ∷ drop (suc n) ks
      → Ranged R lo hi t ks
      → Ranged R lo m.key t (take n ks) × Ranged R m.key hi m.value (drop (suc n) ks)
  cut-Ranged R lo hi zero t ks e r = subst (Ranged R lo hi t) e r
  cut-Ranged R lo hi (suc n) t [] e r = absurd (cc)
  cut-Ranged R lo hi (suc n) t (k ∷ ks) e r =
      let rest = cut-Ranged R k.key hi n k.value ks e r.1 in ((r.0, rest.0), rest.1)

-- ===== src/Index/Tree/Top.antt =====
-- A new root of p3/src/btree.cpp, and the numbers of the pages of a tree that has grown.
use cs564_projects.Prelude.{
  ℕ, zero, suc, ◌+◌, ◌-◌, ◌≤◌, ◌<◌, Bool, List, [], ◌∷◌, ◌==◌, if◌then◌else◌, length, ◌≡◌, ◌≢◌,
  refl, ap, ltb, ◌&&◌, not, arith, Bool-cases, inl, inr, get_or, set,
}
use cs564_projects.Index.Inner.Children
use cs564_projects.Index.Store.{Layout, at}
use cs564_projects.Index.Insertion.{new_root}
use cs564_projects.Index.Tree.{is_leaf, Fits}

pub two_places :
    (xs : List ℕ) (k : ℕ)
    → 2 ≤ length xs
    → (x : ℕ) × (rest : List ℕ) × (set xs 0 k ≡ k ∷ (x ∷ rest))
      × (length xs ≡ suc (suc (length rest)))
two_places [] k l = absurd (omega arith)
two_places (a ∷ []) k l = absurd (omega arith)
two_places (a ∷ b ∷ xs) k l = (b, xs, refl, refl)

pub three_places :
    (xs : List ℕ) (a b : ℕ)
    → 3 ≤ length xs
    → get_or xs 2 0 ≡ 0
    → (rest : List ℕ) × (set (set xs 0 a) 1 b ≡ a ∷ (b ∷ (0 ∷ rest)))
      × (length xs ≡ suc (suc (suc (length rest))))
three_places [] a b l e = absurd (omega arith)
three_places (x ∷ []) a b l e = absurd (omega arith)
three_places (x ∷ y ∷ []) a b l e = absurd (omega arith)
three_places (x ∷ y ∷ z ∷ xs) a b l e = (xs, ap (λ i. a ∷ (b ∷ (i ∷ xs))) e, refl)

pub height_leaf : (n : ℕ) → (suc n == 1) ≡ is_leaf n
height_leaf zero = ground arith
height_leaf (suc n) = ground arith

pub new_root-Holds :
    (layout : Layout) (old child least : ℕ) (leaf : Bool)
    → Fits layout
    → 0 < old
    → 0 < child
    → Children.Holds layout.node_occupancy
        (new_root layout old leaf (child, least))
        old
        (record { key = least; value = child } ∷ [])
unfolding new_root
new_root-Holds layout old child least leaf fits a b =
    let (x, xs, key_array, key_num) =
      two_places layout.new_inner.key_array least (omega (arith, fits.node_keys, fits.nodes)) in
    let (ys, page_array, page_num) =
      three_places layout.new_inner.page_array old child
        (omega (arith, fits.node_pages, fits.nodes)) fits.third in
    record {
      room = fits.nodes;
      first_page = a;
      pages = (b, tt);
      key_end = x;
      key_rest = xs;
      page_rest = ys;
      key_array = key_array;
      page_array = page_array;
      key_places = omega (arith, key_num, fits.node_keys);
      page_places = omega (arith, page_num, fits.node_pages);
    }

-- The pages that are counted after an insertion.
pub fresh_once :
    (a b r q q' : ℕ)
    → a ≤ b + (if (not (ltb r q)) && ltb r q' then 1 else 0)
    → b ≤ 1
    → (q ≤ r → b ≡ 0)
    → a ≤ 1
fresh_once a b r q q' l m gone = elim (Bool-cases (ltb r q)) [
  | inl x ↦ ground arith
  | inr x ↦ let z = gone (ground arith) in ground arith
]

pub fresh_below :
    (a b r q q' : ℕ)
    → a ≤ b + (if (not (ltb r q)) && ltb r q' then 1 else 0)
    → q ≤ q'
    → q' ≤ r
    → (q ≤ r → b ≡ 0)
    → a ≡ 0
fresh_below a b r q q' l m k gone = let z = gone (omega arith) in ground arith

pub fresh_old :
    (a b r q q' : ℕ)
    → a ≤ b + (if (not (ltb r q)) && ltb r q' then 1 else 0)
    → r < q
    → b ≡ 0
    → a ≡ 0
fresh_old a b r q q' l m gone = ground arith

pub new_pins :
    (f : ℕ → ℕ) (p q r : ℕ)
    → p ≢ q
    → (let g = at f q (f q + 1) in let h = at g p (g p - 1) in at h q (h q - 1) r)
      ≡ at f p (f p - 1) r
new_pins f p q r other = ground arith

pub top_count : (q r a b : ℕ) → q ≢ r → a + b ≡ 0 → (if q == r then 1 else 0) + (a + (b + 0)) ≡ 0
top_count q r a b other l = ground arith

pub top_once :
    (q r a b : ℕ) → a + b ≤ 1 → (q ≡ r → a + b ≡ 0) → (if q == r then 1 else 0) + (a + (b + 0)) ≤ 1
top_once q r a b l new = elim (Bool-cases (q == r)) [
  | inl x ↦ let z = new (ground arith) in ground arith
  | inr x ↦ ground arith
]

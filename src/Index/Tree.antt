-- ===== src/Index/Tree.antt =====
-- The tree that the pages of an index of p3/src/btree.cpp stand for. A tree of height `suc n` has a page, a
-- first child and others with their least keys; a leaf has a page and entries.
pub mod Leaves
pub mod Under
pub mod Nodes
pub mod Divide
pub mod Grow
pub mod Top
pub mod Root
use cs564_projects.Prelude.{
  ℕ, zero, suc, ◌+◌, ◌≤◌, ◌<◌, Bool, true, false, List, [], ◌∷◌, ◌++◌, map, ◌==◌, if◌then◌else◌,
  length, ◌≡◌, refl, ap, sym, ◌∙◌, ltb, ◌&&◌, not, arith, ◌⊎◌, get_or,
}
use cs564_projects.Index.Entry.{Entry, ordered_insert}
use cs564_projects.Index.Entry.Order.{InOrder}
use cs564_projects.Index.Kids.{
  joined, summed, AllKids, Ranged, paged, Ranged-InOrder, AllKids-frame,
}
use cs564_projects.Index.Leaf.{RecordId, LeafNode}
use cs564_projects.Index.Leaf.Entries
use cs564_projects.Index.Inner.{InnerNode}
use cs564_projects.Index.Inner.Children
use cs564_projects.Index.Store.{Content, as_leaf, as_inner, Layout, Store}

abbrev pub Tree : ℕ → Type 0
Tree zero = ℕ × List (Entry RecordId)
Tree (suc n) = ℕ × Tree n × List (Entry (Tree n))

abbrev pub root : (n : ℕ) → Tree n → ℕ
root zero t = t.0
root (suc n) t = t.0

-- Whether the root is a leaf.
abbrev pub is_leaf : ℕ → Bool
is_leaf zero = true
is_leaf (suc n) = false

-- The entries of the leaves, from left to right.
abbrev pub entries : (n : ℕ) → Tree n → List (Entry RecordId)
entries zero t = t.1
entries (suc n) t = entries n t.1 ++ joined (entries n) t.2

-- How often a page occurs in the tree.
abbrev pub count : (n : ℕ) → ℕ → Tree n → ℕ
count zero r t = if t.0 == r then 1 else 0
count (suc n) r t = (if t.0 == r then 1 else 0) + (count n r t.1 + summed (count n r) t.2)

-- The keys are in order, from `lo` to `hi`, and those of the nodes separate the others.
abbrev pub IsSearch : (n lo hi : ℕ) → Tree n → Type 0
IsSearch zero lo hi t = InOrder lo hi t.1
IsSearch (suc n) lo hi t = Ranged (λ a b u. IsSearch n a b u) lo hi t.1 t.2

pub IsSearch-InOrder : (n lo hi : ℕ) (t : Tree n) → IsSearch n lo hi t → InOrder lo hi (entries n t)
IsSearch-InOrder zero lo hi t s = s
IsSearch-InOrder (suc n) lo hi t s =
    Ranged-InOrder (λ a b u. IsSearch n a b u) (entries n) (λ a b u r. IsSearch-InOrder n a b u r)
      lo hi t.1 t.2 s

pub once_here : (p : ℕ) → ◌≡◌ {A = ℕ} (if p == p then 1 else 0) 1
once_here p = ground arith

pub root-counted : (n : ℕ) (t : Tree n) → 0 < count n (root n t) t
root-counted zero t = omega (arith, once_here t.0)
root-counted (suc n) t = omega (arith, once_here t.0)

module _ (layout : Layout) where
  -- The pages hold the tree.
  abbrev pub Stored : (n : ℕ) → Store → Tree n → Type 0
  Stored zero s t =
      (leaf : LeafNode) × (s.page t.0 ≡ as_leaf leaf) × Entries.Holds layout.leaf_occupancy leaf t.1
  Stored (suc n) s t =
      ((node : InnerNode) × (s.page t.0 ≡ as_inner node)
        × (node.level ≡ (if is_leaf n then 1 else 0))
        × Children.Holds layout.node_occupancy node (root n t.1) (map (paged (root n)) t.2))
      × Stored n s t.1
      × AllKids (λ u. Stored n s u) t.2

  -- A tree is where it was if its pages are as they were.
  pub Stored-frame :
      (n : ℕ) (s s' : Store) (t : Tree n)
      → ((r : ℕ) → 0 < count n r t → s'.page r ≡ s.page r)
      → Stored n s t
      → Stored n s' t
  Stored-frame zero s s' t same st = (st.0, same t.0 (root-counted zero t) ∙ st.1, st.2)
  Stored-frame (suc n) s s' t same st = (
    (st.0.0, same t.0 (root-counted (suc n) t) ∙ st.0.1, st.0.2, st.0.3),
    Stored-frame n s s' t.1 (λ r l. same r (omega arith)) st.1,
    AllKids-frame (λ u. Stored n s u) (λ u. Stored n s' u) (count n) (λ r. s'.page r ≡ s.page r) t.2
        (λ u f w. Stored-frame n s s' u f w) (λ r l. same r (omega arith)) st.2,
  )

-- The pages given out between two states.
abbrev pub fresh : Store → Store → ℕ → ℕ
fresh s s' r = if (not (ltb r s.next_page)) && ltb r s'.next_page then 1 else 0

-- What an insertion under `t` leaves: `t` changed, the children `more` behind it, at most one, and the pair
-- that tells the parent of it; pages of no part of `t` are as before, and every page as often pinned.
pub record Inserted (layout : Layout) (n : ℕ) (e : Entry RecordId) (s : Store) (t : Tree n)
    (s' : Store) (child : ℕ × ℕ) : Type 0 where
  pub new : Tree n
  pub more : List (Entry (Tree n))
  pub same_root : root n new ≡ root n t
  pub stored : Stored layout n s' new
  pub all_stored : AllKids (λ u. Stored layout n s' u) more
  pub told :
      ((more ≡ []) × (child.0 ≡ 0))
      ⊎ ((k : Entry (Tree n)) × (more ≡ k ∷ [])
          × (0 < child.0)
          × (root n k.value ≡ child.0)
          × (k.key ≡ child.1))
  pub inserted : entries n new ++ joined (entries n) more ≡ ordered_insert e (entries n t)
  pub searched :
      (lo hi : ℕ)
      → lo ≤ e.key
      → e.key ≤ hi
      → IsSearch n lo hi t
      → Ranged (λ a b u. IsSearch n a b u) lo hi new more
  pub counted : (r : ℕ) → count n r new + summed (count n r) more ≤ count n r t + fresh s s' r
  pub next : s.next_page ≤ s'.next_page
  pub kept : (r : ℕ) → count n r t ≡ 0 → r < s.next_page → s'.page r ≡ s.page r
  pub pins : (r : ℕ) → s'.pins r ≡ s.pins r

-- What the state of the pages must be for it.
pub record Ready (n : ℕ) (s : Store) (t : Tree n) : Type 0 where
  pub once : (r : ℕ) → count n r t ≤ 1
  pub below : (r : ℕ) → s.next_page ≤ r → count n r t ≡ 0
  pub positive : 0 < s.next_page

-- The sizes of new pages, and that a page begins without a third child.
pub record Fits (layout : Layout) : Type 0 where
  pub leaves : 2 ≤ layout.leaf_occupancy
  pub nodes : 1 ≤ layout.node_occupancy
  pub leaf_keys : length layout.new_leaf.key_array ≡ suc layout.leaf_occupancy
  pub leaf_rids : length layout.new_leaf.rid_array ≡ suc layout.leaf_occupancy
  pub node_keys : length layout.new_inner.key_array ≡ suc layout.node_occupancy
  pub node_pages : length layout.new_inner.page_array ≡ suc (suc layout.node_occupancy)
  pub third : get_or layout.new_inner.page_array 2 0 ≡ 0

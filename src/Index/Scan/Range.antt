-- ===== src/Index/Scan/Range.antt =====
-- What a scan of p3/src/btree.cpp has still to return, by the entries in the leaves and the range.
use cs564_projects.Prelude.{
  ℕ, ◌+◌, ◌<◌, ◌&&◌, ◌||◌, ltb, Bool, List, [], ◌∷◌, ◌++◌, none, some, ◌==◌, if◌then◌else◌, ◌≡◌,
  arith, length, drop,
}
use cs564_projects.Index.Entry.{Entry}
use cs564_projects.Index.Leaf.{RecordId, LeafNode}
use cs564_projects.Index.Leaf.Entries.{Holds}
use cs564_projects.Index.Store.{Content, as_leaf}
use cs564_projects.Index.Scan.{
  Scanner, Returned, ok, throws, index_scan_completed, store, in_bound, Operator, lt, lte, gte, gt,
  is_lte,
}

-- Leaves that hold lists of entries, none empty, linked from page `p` on, or no page.
abbrev pub Chain : ℕ → (ℕ → Content) → ℕ → List (List (Entry RecordId)) → Type 0
Chain occupancy page p [] = p ≡ 0
Chain occupancy page p (es ∷ more) =
    (leaf : LeafNode) × (0 < p)
    × (page p ≡ as_leaf leaf)
    × Holds occupancy leaf es
    × (0 < length es)
    × Chain occupancy page leaf.right_sib more

abbrev pub flat : List (List (Entry RecordId)) → List (Entry RecordId)
flat [] = []
flat (es ∷ more) = es ++ flat more

-- The least key above the range that ends at `h`.
abbrev pub limit : Operator → ℕ → ℕ
limit lt h = h
limit lte h = h + 1
limit gte h = h
limit gt h = h

abbrev pub below_end : Scanner → ℕ → Bool
below_end b key = ltb key (limit b.high_op b.high_val)

below_limit :
    (op : Operator) (key h : ℕ) → (ltb key h || (key == h && is_lte op)) ≡ ltb key (limit op h)
below_limit lt key h = ground arith
below_limit lte key h = ground arith
below_limit gte key h = ground arith
below_limit gt key h = ground arith

pub in_bound_lem : (b : Scanner) (key : ℕ) → in_bound b key ≡ below_end b key
unfolding in_bound
in_bound_lem b key = below_limit b.high_op key b.high_val

-- The first entries, up to one with a key above the range.
abbrev pub in_range : (ℕ → Bool) → List (Entry RecordId) → List (Entry RecordId)
in_range test [] = []
in_range test (e ∷ es) = if test e.key then e ∷ in_range test es else []

-- The entries that an executing scan has still to return: none, or the next one and, of those behind it in
-- its leaf and in the leaves linked from there, the first in range.
pub data Ahead (occupancy : ℕ) (b : Scanner) : List (Entry RecordId) → Type 0 where
  ended : b.next_entry ≡ none → Ahead occupancy b []
  at_entry :
      (i : ℕ) (leaf : LeafNode) (es rest : List (Entry RecordId)) (e : Entry RecordId)
      (more : List (List (Entry RecordId)))
      → b.next_entry ≡ some i
      → (store b).page b.current_page_num ≡ as_leaf leaf
      → Holds occupancy leaf es
      → drop i es ≡ e ∷ rest
      → Chain occupancy (store b).page leaf.right_sib more
      → Ahead occupancy b (e ∷ in_range (below_end b) (rest ++ flat more))

-- What scanNext returns.
abbrev pub first_of : List (Entry RecordId) → Returned RecordId
first_of [] = throws index_scan_completed
first_of (e ∷ es) = ok e.value

abbrev pub behind_first : List (Entry RecordId) → List (Entry RecordId)
behind_first [] = []
behind_first (e ∷ es) = es

-- ===== src/Index/Insertion.antt =====
-- BTreeIndex::insertUnderNode and insertEntry of p3/src/btree.cpp. Its `newChild` is a pair of a page, 0 for
-- none, and a key. `none` is a page that is cast to a structure other than the one it was written as, or
-- fuel used up.
use cs564_projects.Prelude.{
  ℕ, zero, suc, ◌+◌, Bool, Option, none, some, ◌==◌, if◌then◌else◌, get_or, set, drop,
}
use mathlib.Core.Option
use cs564_projects.Index.Leaf.{RecordId, LeafNode, new_child}
use cs564_projects.Index.Leaf
use cs564_projects.Index.Inner.{InnerNode, child_position, insert_child}
use cs564_projects.Index.Store.{
  MetaInfo, as_leaf, as_inner, as_meta, Layout, Store, read_page, un_pin_page, alloc_page, write,
}

abbrev pub Result : Type 0
Result = Option (Store × (ℕ × ℕ))

-- The members of BTreeIndex that the insertion uses.
pub record Index : Type 0 where
  pub store : Store
  pub header_page_num : ℕ
  pub root_page_num : ℕ

module _ (layout : Layout) where
  -- The branch for a leaf, whose page is pinned.
  unfoldable pub insert_in_leaf : ℕ → RecordId → ℕ → LeafNode → Store → Store × (ℕ × ℕ)
  unfolding new_child alloc_page un_pin_page write
  insert_in_leaf key rid p leaf s =
      let q = s.next_page in
      let (left, right) = Leaf.insert_entry layout.leaf_occupancy q layout.new_leaf key rid leaf in
      let s' : Store = elim right [
        | none ↦ write p (as_leaf left) s
        | some r ↦ un_pin_page q (write q (as_leaf r) (write p (as_leaf left) (alloc_page s)))
      ] in
      (un_pin_page p s', new_child q key right)

  -- The rest of the branch for an inner node, whose page is pinned, when its child at `pos` was split.
  unfoldable pub insert_in_node : ℕ → ℕ → ℕ × ℕ → ℕ → InnerNode → Store → Store × (ℕ × ℕ)
  unfolding alloc_page un_pin_page write
  insert_in_node key pos (child, least) p node s =
      let q = s.next_page in
      let (left, right) =
        insert_child layout.node_occupancy layout.new_inner pos least child node in
      elim right [
        | none ↦ (un_pin_page p (write p (as_inner left) s), (0, key))
        | some (k, r) ↦
            let s' = write q (as_inner r) (write p (as_inner left) (alloc_page s)) in
            (un_pin_page p (un_pin_page q s'), (q, k))
      ]

  -- The rest of the branch for an inner node after the insertion under its child at `pos`.
  unfoldable pub after_child : ℕ → ℕ → ℕ → Store × (ℕ × ℕ) → Result
  unfolding insert_in_node un_pin_page
  after_child key pos p (s, child) =
      if child.0 == 0 then some (un_pin_page p s, child) else elim (s.page p) [
        | as_inner node ↦ some (insert_in_node key pos child p node s)
        | as_leaf leaf ↦ none
        | as_meta meta ↦ none
      ]

  -- `BTreeIndex::insertUnderNode`
  unfoldable pub insert_under_node : ℕ → ℕ → RecordId → ℕ → Bool → Store → Result
  unfolding insert_in_leaf after_child child_position read_page
  insert_under_node zero key rid p is_leaf s = none
  insert_under_node (suc fuel) key rid p is_leaf s = elim (s.page p) [
    | as_leaf leaf ↦ if is_leaf then some (insert_in_leaf key rid p leaf (read_page p s)) else none
    | as_inner node ↦
        let pos = child_position key node.key_array (drop 1 node.page_array) in
        let child = get_or node.page_array pos 0 in
        let r = insert_under_node fuel key rid child (node.level == 1) (read_page p s) in
        if is_leaf then none else elim r [ none ↦ none | some x ↦ after_child key pos p x ]
    | as_meta meta ↦ none
  ]

  -- The new root over the old one and its new right sibling.
  unfoldable pub new_root : ℕ → Bool → ℕ × ℕ → InnerNode
  new_root old is_leaf (child, least) = record layout.new_inner {
    level = if is_leaf then 1 else 0;
    key_array = set layout.new_inner.key_array 0 least;
    page_array = set (set layout.new_inner.page_array 0 old) 1 child;
  }

  -- The end of `BTreeIndex::insertEntry`.
  unfoldable pub after_root : MetaInfo → Index → Store × (ℕ × ℕ) → Index
  unfolding new_root alloc_page un_pin_page write
  after_root meta ix (s, child) =
      let header = ix.header_page_num in
      let q = s.next_page in
      let root = as_inner (new_root ix.root_page_num (meta.height == 1) child) in
      let meta' = as_meta (record { root_page_no = q; height = meta.height + 1 }) in
      let s' = write header meta' (write q root (alloc_page s)) in
      if child.0 == 0
      then record ix { store = un_pin_page header s }
      else record ix { store = un_pin_page q (un_pin_page header s'); root_page_num = q }

  -- `BTreeIndex::insertEntry`
  unfoldable pub insert_entry : ℕ → RecordId → Index → Option Index
  unfolding insert_under_node after_root read_page
  insert_entry key rid ix = elim (ix.store.page ix.header_page_num) [
    | as_meta meta ↦ Option.map (after_root meta ix) (
        insert_under_node meta.height key rid ix.root_page_num (meta.height == 1)
          (read_page ix.header_page_num ix.store))
    | as_leaf leaf ↦ none
    | as_inner node ↦ none
  ]

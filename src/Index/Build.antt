-- ===== src/Index/Build.antt =====
-- The constructor of badgerdb::BTreeIndex of p3/src/btree.cpp: an index is opened, or made from the records
-- of a relation, which FileScan gives one by one. Their keys and places are a list here.
pub mod Made
mod Tests
use cs564_projects.Prelude.{ℕ, zero, suc, ◌+◌, List, [], ◌∷◌, Option, none, some}
use mathlib.Core.Option
use cs564_projects.Index.Entry.{Entry}
use cs564_projects.Index.Leaf.{RecordId, LeafNode}
use cs564_projects.Index.Leaf
use cs564_projects.Index.Store.{
  MetaInfo, Content, as_leaf, as_inner, as_meta, Layout, Store, read_page, un_pin_page, alloc_page,
  write,
}
use cs564_projects.Index.Insertion.{Index, insert_entry}

-- The branch for a file that is there.
unfoldable pub open_index : ℕ → Store → Option Index
unfolding read_page un_pin_page
open_index header s = elim (s.page header) [
  | as_meta meta ↦ some (record {
    store = un_pin_page header (read_page header s);
    header_page_num = header;
    root_page_num = meta.root_page_no;
  })
  | as_leaf leaf ↦ none
  | as_inner node ↦ none
]

-- The end: the pages that were pinned first are unpinned, the header and the first root.
unfoldable pub unpin_first : ℕ → ℕ → Index → Index
unfolding un_pin_page
unpin_first header root ix = record ix { store = un_pin_page root (un_pin_page header ix.store) }

module _ (layout : Layout) where
  -- The root of an empty index.
  unfoldable pub first_root : LeafNode
  unfolding Leaf.mark_end
  first_root = Leaf.mark_end 0 (record layout.new_leaf { right_sib = 0 })

  -- The header page and the root, both pinned.
  unfoldable pub empty_index : Store → Index
  unfolding first_root alloc_page write
  empty_index s =
      let header = s.next_page in
      let s' = alloc_page s in
      let root = s'.next_page in
      let meta = as_meta (record { root_page_no = root; height = 1 }) in
      record {
        store = write root (as_leaf first_root) (write header meta (alloc_page s'));
        header_page_num = header;
        root_page_num = root;
      }

  -- The loop over the records.
  unfoldable pub insert_all : List (Entry RecordId) → Index → Option Index
  unfolding insert_entry
  insert_all [] ix = some ix
  insert_all (e ∷ es) ix = elim (insert_entry layout e.key e.value ix) [
    | none ↦ none
    | some ix' ↦ insert_all es ix'
  ]

  -- The branch for a file that is not there.
  unfoldable pub make_index : List (Entry RecordId) → Store → Option Index
  unfolding empty_index insert_all unpin_first
  make_index es s =
      let ix = empty_index s in
      Option.map (unpin_first ix.header_page_num ix.root_page_num) (insert_all es ix)

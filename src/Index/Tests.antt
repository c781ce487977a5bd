-- ===== src/Index/Tests.antt =====
-- Runs of the B+ tree of p3, and its theorems at concrete inputs, with two entries or keys in a node.
use cs564_projects.Prelude.{ℕ, [], ◌∷◌, ◌==◌, if◌then◌else◌, Option, none, some, ◌≡◌, refl, arith}
use cs564_projects.Index.Leaf.{RecordId, LeafNode, no_rid, insert_entry, new_child}
use cs564_projects.Index.Leaf.Entries.{Holds}
use cs564_projects.Index.Entry.{Entry}
use cs564_projects.Index.Array.{int_max}
use cs564_projects.Index.Inner.{InnerNode, insert_child}
use cs564_projects.Index.Inner.Children
use cs564_projects.Index.Inner.Insert.{insert_child-Holds}
use cs564_projects.Index.Inner.Split.{insert_child_split}
use cs564_projects.Index.Store.{as_leaf, as_meta, Layout}
use cs564_projects.Index.Insertion.{Index}
use cs564_projects.Index.Insertion
use cs564_projects.Index.Tree.{Tree, Fits}
use cs564_projects.Index.Tree.Root.{IsIndex, Done, insert_entry-IsIndex}
use cs564_projects.Index.Leaf.Insert.{insert_entry-Holds}
use cs564_projects.Index.Leaf.Split.{insert_entry_split}

abbrev entry : ℕ → Entry RecordId
entry k = record { key = k; value = record { page_number = 1; slot_number = k } }

abbrev blank : LeafNode
blank = record {
  key_array = 0 ∷ 0 ∷ 0 ∷ [];
  rid_array = no_rid ∷ no_rid ∷ no_rid ∷ [];
  right_sib = 0;
}

abbrev one_entry : LeafNode
one_entry = record {
  key_array = 7 ∷ int_max ∷ 0 ∷ [];
  rid_array = (entry 7).value ∷ no_rid ∷ no_rid ∷ [];
  right_sib = 0;
}

one_entry-Holds : Holds 2 one_entry (entry 7 ∷ [])
one_entry-Holds = record {
  room = omega arith;
  used = (omega arith, tt);
  key_end = int_max;
  key_rest = 0 ∷ [];
  rid_end = no_rid;
  rid_rest = no_rid ∷ [];
  key_array = refl;
  rid_array = refl;
  ends = refl;
  key_places = refl;
  rid_places = refl;
}

abbrev two_entries : LeafNode
two_entries = (insert_entry 2 9 blank 5 (entry 5).value one_entry).0

insert_entry_run : two_entries.key_array ≡ 5 ∷ 7 ∷ int_max ∷ []
unfolding insert_entry
insert_entry_run = refl

insert_entry-Holds_example :
    ((insert_entry 2 9 blank 5 (entry 5).value one_entry).1 ≡ none)
    × Holds 2 (insert_entry 2 9 blank 5 (entry 5).value one_entry).0 (entry 5 ∷ entry 7 ∷ [])
insert_entry-Holds_example =
    insert_entry-Holds 2 one_entry (entry 7 ∷ []) one_entry-Holds (entry 5) 9 blank (omega arith)
      (omega arith)

two_entries-Holds : Holds 2 two_entries (entry 5 ∷ entry 7 ∷ [])
two_entries-Holds = insert_entry-Holds_example.1

-- 6 goes between 5 and 7, which moves to the new page.
insert_entry_split_example :
    Holds 2 (insert_entry 2 9 blank 6 (entry 6).value two_entries).0 (entry 5 ∷ entry 6 ∷ [])
    × ((right : LeafNode) × ((insert_entry 2 9 blank 6 (entry 6).value two_entries).1 ≡ some right)
        × Holds 2 right (entry 7 ∷ []))
insert_entry_split_example =
    insert_entry_split 2 two_entries (entry 5 ∷ entry 7 ∷ []) two_entries-Holds (entry 6) 9 blank
      refl (omega arith) (omega arith) refl refl

new_child_run : new_child 9 6 (insert_entry 2 9 blank 6 (entry 6).value two_entries).1 ≡ (9, 7)
unfolding insert_entry new_child
new_child_run = refl

-- An inner node over the pages 3 and 4, whose keys are below 7 and from 7 on.
abbrev two_children : InnerNode
two_children = record {
  level = 1;
  key_array = 7 ∷ int_max ∷ 0 ∷ [];
  page_array = 3 ∷ 4 ∷ 0 ∷ 0 ∷ [];
}

abbrev blank_node : InnerNode
blank_node = record { level = 0; key_array = 0 ∷ 0 ∷ 0 ∷ []; page_array = 0 ∷ 0 ∷ 0 ∷ 0 ∷ [] }

abbrev child : ℕ → ℕ → Entry ℕ
child k p = record { key = k; value = p }

two_children-Holds : Children.Holds 2 two_children 3 (child 7 4 ∷ [])
two_children-Holds = record {
  room = omega arith;
  first_page = omega arith;
  pages = (omega arith, tt);
  key_end = int_max;
  key_rest = 0 ∷ [];
  page_rest = 0 ∷ [];
  key_array = refl;
  page_array = refl;
  key_places = refl;
  page_places = refl;
}

abbrev three_children : InnerNode
three_children = (insert_child 2 blank_node 0 5 6 two_children).0

insert_child_run : three_children.page_array ≡ 3 ∷ 6 ∷ 4 ∷ 0 ∷ []
unfolding insert_child
insert_child_run = refl

insert_child-Holds_example :
    ((insert_child 2 blank_node 0 5 6 two_children).1 ≡ none)
    × Children.Holds 2
        (insert_child 2 blank_node 0 5 6 two_children).0
        3
        (child 5 6 ∷ child 7 4 ∷ [])
insert_child-Holds_example =
    insert_child-Holds 2 two_children 3 (child 7 4 ∷ []) two_children-Holds 6 (child 5 6) blank_node
      (omega arith) (omega arith)

-- The middle of the keys 5, 7 and 9 goes to the parent.
insert_child_split_example :
    (m : Entry ℕ) × ((child 7 4 ∷ child 9 8 ∷ []) ≡ m ∷ (child 9 8 ∷ []))
    × Children.Holds 2 (insert_child 2 blank_node 2 9 8 three_children).0 3 (child 5 6 ∷ [])
    × ((right : InnerNode) × ((insert_child 2 blank_node 2 9 8 three_children).1
          ≡ some (m.key, right))
        × Children.Holds 2 right m.value (child 9 8 ∷ []))
insert_child_split_example =
    insert_child_split 2 three_children 3 (child 5 6 ∷ child 7 4 ∷ []) insert_child-Holds_example.1
      9 (child 9 8) blank_node refl (omega arith) (omega arith) refl refl

abbrev small : Layout
small = record { leaf_occupancy = 2; node_occupancy = 2; new_leaf = blank; new_inner = blank_node }

small-Fits : Fits small
small-Fits = record {
  leaves = omega arith;
  nodes = omega arith;
  leaf_keys = refl;
  leaf_rids = refl;
  node_keys = refl;
  node_pages = refl;
  third = refl;
}

-- The header page is 1, and the root is a full leaf on page 2.
abbrev small_index : Index
small_index = record {
  store = record {
    page = λ r.
        if r == 1 then as_meta (record { root_page_no = 2; height = 1 }) else as_leaf two_entries;
    pins = λ r. 0;
    next_page = 3;
  };
  header_page_num = 1;
  root_page_num = 2;
}

abbrev small_tree : Tree 0
small_tree = (2, entry 5 ∷ entry 7 ∷ [])

small_index-IsIndex : IsIndex small 0 small_index small_tree
small_index-IsIndex = record {
  header = refl;
  rooted = refl;
  root_positive = omega arith;
  stored = (two_entries, refl, two_entries-Holds);
  apart = refl;
  header_below = omega arith;
  ready = record { once = λ r. ground arith; below = λ r l. ground arith; positive = omega arith };
  ordered = (omega arith, (omega arith, omega arith));
}

-- 6 splits the root.
insert_entry-IsIndex_example :
    (ix : Index) × (Insertion.insert_entry small 6 (entry 6).value small_index ≡ some ix)
    × Done small 0 (entry 6) small_index small_tree ix
insert_entry-IsIndex_example =
    insert_entry-IsIndex small small-Fits 0 (entry 6) small_index small_tree small_index-IsIndex
      (omega arith) (omega arith)

abbrev root_of : Option Index → ℕ × ℕ
root_of none = (0, 0)
root_of (some ix) = (ix.root_page_num, ix.store.next_page)

insert_entry_root : root_of (Insertion.insert_entry small 6 (entry 6).value small_index) ≡ (4, 5)
unfolding Insertion.insert_entry insert_entry
insert_entry_root = refl

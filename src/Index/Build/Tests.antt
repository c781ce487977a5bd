-- ===== src/Index/Build/Tests.antt =====
-- The constructor of the index of p3 at concrete records, with nodes of two entries or keys.
use cs564_projects.Prelude.{ℕ, [], ◌∷◌, List, Option, none, some, ◌≡◌, refl, arith}
use cs564_projects.Index.Entry.{Entry}
use cs564_projects.Index.Leaf.{RecordId, LeafNode, no_rid}
use cs564_projects.Index.Leaf
use cs564_projects.Index.Inner.{InnerNode}
use cs564_projects.Index.Store.{as_leaf, Layout, Store}
use cs564_projects.Index.Insertion.{Index}
use cs564_projects.Index.Tree.{Fits}
use cs564_projects.Index.Build.{make_index, open_index}
use cs564_projects.Index.Build.Made.{Made, insert_each, make_index-Made, open_index-Made}

abbrev entry : ℕ → Entry RecordId
entry k = record { key = k; value = record { page_number = 1; slot_number = k } }

abbrev blank : LeafNode
blank = record {
  key_array = 0 ∷ 0 ∷ 0 ∷ [];
  rid_array = no_rid ∷ no_rid ∷ no_rid ∷ [];
  right_sib = 0;
}

abbrev blank_node : InnerNode
blank_node = record { level = 0; key_array = 0 ∷ 0 ∷ 0 ∷ []; page_array = 0 ∷ 0 ∷ 0 ∷ 0 ∷ [] }

abbrev small : Layout
small = record { leaf_occupancy = 2; node_occupancy = 2; new_leaf = blank; new_inner = blank_node }

small-Fits : Fits small
small-Fits = record {
  leaves = omega arith;
  nodes = omega arith;
  leaf_keys = refl;
  leaf_rids = refl;
  node_keys = refl;
  node_pages = refl;
  third = refl;
}

abbrev no_pages : Store
no_pages = record { page = λ r. as_leaf blank; pins = λ r. 0; next_page = 1 }

abbrev records : List (Entry RecordId)
records = entry 7 ∷ entry 5 ∷ entry 6 ∷ []

make_index-Made_example :
    (ix : Index) × (make_index small records no_pages ≡ some ix)
    × Made small (λ r. 0) (insert_each records []) ix
make_index-Made_example =
    make_index-Made small small-Fits records no_pages
      (omega arith, omega arith, (omega arith, omega arith, (omega arith, omega arith, tt)))
      (omega arith)

insert_each_run : insert_each records [] ≡ entry 5 ∷ entry 6 ∷ entry 7 ∷ []
insert_each_run = refl

made :
    (ix : Index) × (make_index small records no_pages ≡ some ix)
    × Made small (λ r. 0) (insert_each records []) ix
made =
    make_index-Made small small-Fits records no_pages
      (omega arith, omega arith, (omega arith, omega arith, (omega arith, omega arith, tt)))
      (omega arith)

open_index-Made_example :
    (ix : Index) × (open_index made.0.header_page_num made.0.store ≡ some ix)
    × (ix.root_page_num ≡ made.0.root_page_num)
    × Made small (λ r. 0) (insert_each records []) ix
open_index-Made_example = open_index-Made small (λ r. 0) (insert_each records []) made.0 made.2

abbrev root_of : Option Index → ℕ × ℕ
root_of none = (0, 0)
root_of (some ix) = (ix.root_page_num, ix.store.next_page)

make_index_run : root_of (make_index small records no_pages) ≡ (4, 5)
unfolding make_index Leaf.insert_entry
make_index_run = refl

-- ===== src/Index/Scan/Tests.antt =====
-- Scans of p3, and their theorems at concrete inputs, over two leaves with up to three entries.
use cs564_projects.Prelude.{
  ℕ, zero, suc, false, true, [], ◌∷◌, ◌==◌, if◌then◌else◌, ◌+◌, ◌&&◌, ◌++◌, none, some, ◌≡◌, refl,
  arith, List, length, get_or, inl, inr,
}
use cs564_projects.Index.Array.{int_max}
use cs564_projects.Index.Entry.{Entry}
use cs564_projects.Index.Leaf.{RecordId, LeafNode, no_rid}
use cs564_projects.Index.Leaf.Entries.{Holds}
use cs564_projects.Index.Inner.{InnerNode}
use cs564_projects.Index.Store.{as_leaf, as_meta, Layout}
use cs564_projects.Index.Insertion.{new_root}
use cs564_projects.Index.Scan.{
  Scanner, gte, gt, lt, lte, ok, throws, index_scan_completed, no_such_key_found, at_leaf,
  scan_next, page_down, store,
}
use cs564_projects.Index.Scan.Pins.{start, next, stop, all_called, all_called_pins}
use cs564_projects.Index.Scan.Range.{Ahead, at_entry, behind_first, flat, in_range, below_end}
use cs564_projects.Index.Scan.Ahead.{scan_next-Ahead, scan_all, scan_all-Ahead, returned}
use cs564_projects.Index.Scan.First.{at_leaf-Ahead}
use cs564_projects.Index.Scan.Lost.{at_leaf-Passed, page_down-new_root}

abbrev entry : ℕ → Entry RecordId
entry k = record { key = k; value = record { page_number = 1; slot_number = k } }

abbrev left_leaf : LeafNode
left_leaf = record {
  key_array = 5 ∷ 7 ∷ int_max ∷ 0 ∷ [];
  rid_array = (entry 5).value ∷ (entry 7).value ∷ no_rid ∷ no_rid ∷ [];
  right_sib = 3;
}

abbrev right_leaf : LeafNode
right_leaf = record {
  key_array = 9 ∷ int_max ∷ 0 ∷ 0 ∷ [];
  rid_array = (entry 9).value ∷ no_rid ∷ no_rid ∷ no_rid ∷ [];
  right_sib = 0;
}

left_leaf-Holds : Holds 3 left_leaf (entry 5 ∷ entry 7 ∷ [])
left_leaf-Holds = record {
  room = omega arith;
  used = (omega arith, (omega arith, tt));
  key_end = int_max;
  key_rest = 0 ∷ [];
  rid_end = no_rid;
  rid_rest = no_rid ∷ [];
  key_array = refl;
  rid_array = refl;
  ends = refl;
  key_places = refl;
  rid_places = refl;
}

right_leaf-Holds : Holds 3 right_leaf (entry 9 ∷ [])
right_leaf-Holds = record {
  room = omega arith;
  used = (omega arith, tt);
  key_end = int_max;
  key_rest = 0 ∷ 0 ∷ [];
  rid_end = no_rid;
  rid_rest = no_rid ∷ no_rid ∷ [];
  key_array = refl;
  rid_array = refl;
  ends = refl;
  key_places = refl;
  rid_places = refl;
}

-- The scan from 5 to 9 at its first entry, the current page being 2.
abbrev scanner : Scanner
scanner = record {
  index = record {
    store = record {
      page = λ r.
          if r == 3
          then as_leaf right_leaf
          else if r == 2
          then as_leaf left_leaf
          else as_meta (record { root_page_no = 2; height = 1 });
      pins = λ r. 0;
      next_page = 4;
    };
    header_page_num = 1;
    root_page_num = 2;
  };
  scan_executing = true;
  next_entry = some 0;
  current_page_num = 2;
  low_val = 5;
  high_val = 9;
  low_op = gte;
  high_op = lte;
}

abbrev ahead_entries : List (Entry RecordId)
ahead_entries =
    entry 5 ∷ in_range (below_end scanner) ((entry 7 ∷ []) ++ flat ((entry 9 ∷ []) ∷ []))

scanner-Ahead : Ahead 3 scanner ahead_entries
scanner-Ahead =
    at_entry 0 left_leaf (entry 5 ∷ entry 7 ∷ []) (entry 7 ∷ []) (entry 5) ((entry 9 ∷ []) ∷ [])
      refl refl left_leaf-Holds refl
      (right_leaf, omega arith, refl, right_leaf-Holds, omega arith, refl)

scan_next-Ahead_example :
    ((scan_next scanner).0 ≡ ok (entry 5).value)
    × ((scan_next scanner).1.scan_executing ≡ true)
    × Ahead 3 (scan_next scanner).1 (behind_first ahead_entries)
scan_next-Ahead_example = scan_next-Ahead 3 scanner ahead_entries refl scanner-Ahead

scan_all-Ahead_example : (scan_all (suc (length ahead_entries)) scanner).0 ≡ returned ahead_entries
scan_all-Ahead_example = scan_all-Ahead 3 scanner ahead_entries refl scanner-Ahead

scan_all_run :
    (scan_all 4 scanner).0
    ≡ ok (entry 5).value
      ∷ ok (entry 7).value
      ∷ ok (entry 9).value
      ∷ throws index_scan_completed
      ∷ []
unfolding scan_next
scan_all_run = refl

at_leaf-Ahead_example :
    (let r = at_leaf 3 (some (left_leaf, scanner)) scanner in
      (r.0 ≡ ok tt)
      × Ahead 3 r.1
          (entry 5 ∷ in_range (below_end scanner) ((entry 7 ∷ []) ++ flat ((entry 9 ∷ []) ∷ []))))
at_leaf-Ahead_example =
    at_leaf-Ahead 3 left_leaf [] (entry 7 ∷ []) (entry 5) ((entry 9 ∷ []) ∷ []) left_leaf-Holds
      scanner scanner refl (right_leaf, omega arith, refl, right_leaf-Holds, omega arith, refl) tt
      (omega arith, omega arith, inr refl)

-- The scan from 5, included, to 5, excluded, comes to 5, which is not in the range.
at_leaf_empty_range :
    (let r = at_leaf 3 (some (left_leaf, record scanner { high_val = 5; high_op = lt })) scanner in
      (r.0 ≡ ok tt) × (r.1.next_entry ≡ some 0) × ((scan_next r.1).0 ≡ ok (entry 5).value))
unfolding at_leaf scan_next
at_leaf_empty_range = (refl, refl, refl)

abbrev blank_node : InnerNode
blank_node = record {
  level = 0;
  key_array = 0 ∷ 0 ∷ 0 ∷ 0 ∷ [];
  page_array = 0 ∷ 0 ∷ 0 ∷ 0 ∷ 0 ∷ [];
}

abbrev small : Layout
small = record {
  leaf_occupancy = 3;
  node_occupancy = 3;
  new_leaf = left_leaf;
  new_inner = blank_node;
}

abbrev idle : Scanner
idle = record scanner { scan_executing = false; next_entry = none }

-- A scan that ends, and one that does not.
all_called_pins_example :
    (let b = all_called small (start 5 gte 7 lt ∷ next ∷ stop ∷ start 6 gt 9 lte ∷ []) idle in
      (store b).pins 2
      ≡ (store idle).pins 2 + (if b.scan_executing && b.current_page_num == 2 then 1 else 0))
all_called_pins_example =
    all_called_pins small (start 5 gte 7 lt ∷ next ∷ stop ∷ start 6 gt 9 lte ∷ []) idle refl 2

-- The scan from 8 to 9 does not come to 9, which is on the right.
abbrev from_8 : Scanner
from_8 = record scanner { low_val = 8 }

at_leaf-Passed_example : (at_leaf 3 (some (left_leaf, from_8)) scanner).0 ≡ throws no_such_key_found
at_leaf-Passed_example =
    at_leaf-Passed 3 left_leaf (entry 5 ∷ entry 7 ∷ []) left_leaf-Holds from_8 scanner (omega arith)
      (omega arith) (omega arith) (inl (omega arith), (inl (omega arith), tt))

-- The scan from 5 to 7, both included but 5 excluded, does not come to 7.
at_leaf_last :
    (at_leaf 3 (some (left_leaf, record scanner { low_op = gt; high_val = 7 })) scanner).0
    ≡ throws no_such_key_found
unfolding at_leaf
at_leaf_last = refl

blank_pages : (i : ℕ) → get_or blank_node.page_array i 0 ≡ 0
blank_pages zero = refl
blank_pages (suc zero) = refl
blank_pages (suc (suc zero)) = refl
blank_pages (suc (suc (suc zero))) = refl
blank_pages (suc (suc (suc (suc zero)))) = refl
blank_pages (suc (suc (suc (suc (suc i))))) = refl

page_down-new_root_example : page_down 3 10 (new_root small 2 true (3, 9)) ≡ 0
page_down-new_root_example =
    page_down-new_root small 10 2 9 3 true (omega arith) refl (omega arith)
      (omega arith, (omega arith, (omega arith, (omega arith, tt)))) blank_pages

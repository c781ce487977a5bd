-- ===== src/Index/Leaf.antt =====
-- The leaves of badgerdb::BTreeIndex of p3/src/btree.h and btree.cpp, and the insertion of an entry into
-- a leaf. The arrays of a leaf have `leafOccupancy + 1` places, the occupancy being a parameter.
pub mod Entries
pub mod Insert
pub mod Split
use cs564_projects.Prelude.{
  ℕ, suc, ◌+◌, ◌-◌, ◌*◌, ◌/◌, ◌^◌, Bool, ◌||◌, List, [], ◌∷◌, Option, none, some, ltb, ◌==◌,
  if◌then◌else◌, get_or, set, take, drop,
}
use cs564_projects.Index.Array.{int_max, write_all, put_in}

-- The part of a RecordId that the index reads and writes.
pub record RecordId : Type 0 where
  pub page_number : ℕ
  pub slot_number : ℕ

-- struct LeafNodeInt
pub record LeafNode : Type 0 where
  pub key_array : List ℕ
  pub rid_array : List RecordId
  pub right_sib : ℕ

-- What an array holds out of range.
abbrev pub no_rid : RecordId
no_rid = record { page_number = 0; slot_number = 0 }

-- The number of the entries: the first place without a page.
unfoldable pub entry_num : List RecordId → ℕ
entry_num [] = 0
entry_num (r ∷ rids) = if r.page_number == 0 then 0 else suc (entry_num rids)

-- The place of a key: the first with a greater key, or without a page.
unfoldable pub position : ℕ → List ℕ → List RecordId → ℕ
position key [] rids = 0
position key (k ∷ keys) [] = 0
position key (k ∷ keys) (r ∷ rids) =
    if ltb key k || r.page_number == 0 then 0 else suc (position key keys rids)

-- The end of the entries at place `i`.
unfoldable pub mark_end : ℕ → LeafNode → LeafNode
mark_end i leaf = record leaf {
  key_array = set leaf.key_array i int_max;
  rid_array =
      set leaf.rid_array i
        (record { page_number = 0; slot_number = (get_or leaf.rid_array i no_rid).slot_number });
}

-- The upper half of a full leaf, on the new page `new`.
unfoldable pub right_half : ℕ → LeafNode → LeafNode → LeafNode
unfolding write_all mark_end
right_half occupancy new leaf =
    let n = (occupancy + 1) / 2 in
    let from = occupancy / 2 + 1 in
    mark_end n (record {
      key_array = write_all new.key_array 0 (take n (drop from leaf.key_array));
      rid_array = write_all new.rid_array 0 (take n (drop from leaf.rid_array));
      right_sib = leaf.right_sib;
    })

-- The leaf's part of `BTreeIndex::insertUnderNode`, where `new_page` and `new` are the page number and
-- the page that allocPage gives: the leaf and, if it is split, its new right sibling.
unfoldable pub insert_entry :
    ℕ → ℕ → LeafNode → ℕ → RecordId → LeafNode → LeafNode × Option LeafNode
unfolding entry_num position put_in mark_end right_half
insert_entry occupancy new_page new key rid leaf =
    let n = entry_num leaf.rid_array in
    let pos = position key leaf.key_array leaf.rid_array in
    let put = record leaf {
      key_array = put_in occupancy pos n key leaf.key_array;
      rid_array = put_in occupancy pos n rid leaf.rid_array;
    } in
    if n == occupancy
    then (
      mark_end (occupancy / 2 + 1) (record put { right_sib = new_page }),
      some (right_half occupancy new put),
    )
    else (mark_end (n + 1) put, none)

-- The pair of a page and a key that `insertUnderNode` hands to the parent, by `newChild`.
unfoldable pub new_child : ℕ → ℕ → Option LeafNode → ℕ × ℕ
new_child new_page key none = (0, key)
new_child new_page key (some right) = (new_page, get_or right.key_array 0 0)

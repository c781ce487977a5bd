-- ===== src/Index/Inner.antt =====
-- The inner nodes of badgerdb::BTreeIndex of p3/src/btree.h and btree.cpp, and the insertion of a child
-- into one. The arrays have `nodeOccupancy + 1` keys and `nodeOccupancy + 2` pages, the occupancy being a
-- parameter.
pub mod Children
pub mod Insert
pub mod Split
pub mod Level
use cs564_projects.Prelude.{
  ℕ, suc, ◌+◌, ◌-◌, ◌/◌, ◌||◌, List, [], ◌∷◌, Option, none, some, ltb, ◌==◌, if◌then◌else◌, get_or,
  set, take, drop,
}
use cs564_projects.Index.Array.{int_max, write_all, copy_array, put_in}

-- struct NonLeafNodeInt
pub record InnerNode : Type 0 where
  pub level : ℕ
  pub key_array : List ℕ
  pub page_array : List ℕ

-- The place of the child for a key: the first with a greater key, or without a page behind it. The list of
-- pages begins with the second.
unfoldable pub child_position : ℕ → List ℕ → List ℕ → ℕ
child_position key [] pages = 0
child_position key (k ∷ keys) [] = 0
child_position key (k ∷ keys) (p ∷ pages) =
    if ltb key k || p == 0 then 0 else suc (child_position key keys pages)

-- The number of children: the first place without a page.
unfoldable pub child_num : List ℕ → ℕ
child_num [] = 0
child_num (p ∷ pages) = if p == 0 then 0 else suc (child_num pages)

-- The array of the pages with a new one behind place `pos`, where it has `n` of them.
unfoldable pub put_page : ℕ → ℕ → ℕ → ℕ → List ℕ → List ℕ
unfolding copy_array
put_page occupancy pos n page pages =
    set
      (if ltb pos occupancy
        then copy_array pages (suc pos) (suc (suc pos)) (n - 1 - pos)
        else pages)
      (suc pos) page

-- The end of the keys at place `i`, and that of the pages behind it.
unfoldable pub mark_end : ℕ → InnerNode → InnerNode
mark_end i node = record node {
  key_array = set node.key_array i int_max;
  page_array = set node.page_array (suc i) 0;
}

-- The upper half of a full node, on the new page `new`.
unfoldable pub right_half : ℕ → InnerNode → InnerNode → InnerNode
unfolding write_all mark_end
right_half occupancy new node =
    let from = (occupancy + 1) / 2 + 1 in
    let n = occupancy / 2 in
    mark_end n (record {
      level = node.level;
      key_array = write_all new.key_array 0 (take n (drop from node.key_array));
      page_array = write_all new.page_array 0 (take (suc n) (drop from node.page_array));
    })

-- The part of `BTreeIndex::insertUnderNode` for an inner node after the insertion under its child at
-- `pos`, which was split into itself and the new `child` from `key` on; `new_page` and `new` are the page
-- number and the page that allocPage gives. The node and, if it is split, the least key under its new right
-- sibling and the sibling.
unfoldable pub insert_child :
    ℕ → InnerNode → ℕ → ℕ → ℕ → InnerNode → InnerNode × Option (ℕ × InnerNode)
unfolding child_num put_page mark_end right_half
insert_child occupancy new pos key child node =
    let n = child_num node.page_array in
    let put = record node {
      key_array = put_in occupancy pos (n - 1) key node.key_array;
      page_array = put_page occupancy pos n child node.page_array;
    } in
    let middle = (occupancy + 1) / 2 in
    if n == occupancy + 1
    then (mark_end middle put, some (get_or put.key_array middle 0, right_half occupancy new put))
    else (mark_end n put, none)

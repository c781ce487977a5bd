-- ===== src/Index/Scan.antt =====
-- The scan of badgerdb::BTreeIndex of p3/src/btree.cpp: startScan, scanNext and endScan. A method returns a
-- value or throws, or it is stuck: a page is cast to a structure other than the one it was written as, or
-- fuel is used up. `nextEntry` is `none` for -1, and `currentPageData` is the page `currentPageNum`.
pub mod Pins
pub mod Range
pub mod Ahead
pub mod First
pub mod Lost
mod Tests
use cs564_projects.Prelude.{
  ℕ, zero, suc, ◌+◌, ◌-◌, Bool, true, false, ◌&&◌, ◌||◌, List, [], ◌∷◌, Option, none, some, ltb,
  leb, not, ◌==◌, if◌then◌else◌, get_or,
}
use cs564_projects.Index.Leaf.{RecordId, LeafNode, no_rid}
use cs564_projects.Index.Inner.{InnerNode}
use cs564_projects.Index.Store.{
  MetaInfo, Content, as_leaf, as_inner, as_meta, Layout, Store, read_page, un_pin_page,
}
use cs564_projects.Index.Insertion.{Index}

-- enum Operator
pub data Operator : Type 0 where
  lt : Operator
  lte : Operator
  gte : Operator
  gt : Operator

pub data ScanError : Type 0 where
  bad_opcodes : ScanError
  bad_scanrange : ScanError
  no_such_key_found : ScanError
  scan_not_initialized : ScanError
  index_scan_completed : ScanError

pub data Returned (A : Type 0) : Type 0 where
  ok : A → Returned A
  throws : ScanError → Returned A
  stuck : Returned A

-- BTreeIndex, with its members for scanning
pub record Scanner : Type 0 where
  pub index : Index
  pub scan_executing : Bool
  pub next_entry : Option ℕ
  pub current_page_num : ℕ
  pub low_val : ℕ
  pub high_val : ℕ
  pub low_op : Operator
  pub high_op : Operator

abbrev pub store : Scanner → Store
store b = b.index.store

abbrev pub with_store : Store → Scanner → Scanner
with_store s b = record b { index = record b.index { store = s } }

abbrev pub is_gte : Operator → Bool
is_gte lt = false
is_gte lte = false
is_gte gte = true
is_gte gt = false

abbrev pub is_lte : Operator → Bool
is_lte lt = false
is_lte lte = true
is_lte gte = false
is_lte gt = false

-- Whether an operator is one for the low value, and for the high value.
abbrev pub is_low : Operator → Bool
is_low lt = false
is_low lte = false
is_low gte = true
is_low gt = true

abbrev pub is_high : Operator → Bool
is_high lt = true
is_high lte = true
is_high gte = false
is_high gt = false

-- The current page, unpinned, left for another, which is pinned.
unfoldable pub move_to : ℕ → Scanner → Scanner
unfolding read_page un_pin_page
move_to p b = record (with_store (read_page p (un_pin_page b.current_page_num (store b))) b) {
  current_page_num = p;
}

-- `BTreeIndex::endScan`
unfoldable pub end_scan : Scanner → Returned Unit × Scanner
unfolding un_pin_page
end_scan b =
    if b.scan_executing
    then (
      ok tt,
      record (with_store (un_pin_page b.current_page_num (store b)) b) { scan_executing = false },
    )
    else (throws scan_not_initialized, b)

-- The test of a next key.
unfoldable pub in_bound : Scanner → ℕ → Bool
in_bound b key = ltb key b.high_val || (key == b.high_val && is_lte b.high_op)

-- The step of scanNext to the right sibling.
unfoldable pub enter_right : RecordId → ℕ → Scanner → Content → Returned RecordId × Scanner
unfolding in_bound move_to
enter_right rid p b (as_leaf right) = (
  ok rid,
  record (move_to p b) {
    next_entry = if in_bound b (get_or right.key_array 0 0) then some 0 else none;
  },
)
enter_right rid p b (as_inner node) = (stuck, b)
enter_right rid p b (as_meta meta) = (stuck, b)

-- The rest of scanNext after the entry at `i` of a leaf was read.
unfoldable pub go_on : ℕ → LeafNode → Scanner → Returned RecordId × Scanner
unfolding in_bound enter_right
go_on i leaf b =
    let rid = get_or leaf.rid_array i no_rid in
    let next_key = get_or leaf.key_array (i + 1) 0 in
    if (get_or leaf.rid_array (i + 1) no_rid).page_number == 0
    then if leaf.right_sib == 0
      then (ok rid, record b { next_entry = none })
      else enter_right rid leaf.right_sib b ((store b).page leaf.right_sib)
    else (ok rid, record b { next_entry = if in_bound b next_key then some (i + 1) else none })

-- scanNext at the entry at `i` of the current page.
unfoldable pub next_at : ℕ → Scanner → Content → Returned RecordId × Scanner
unfolding go_on
next_at i b (as_leaf leaf) = go_on i leaf b
next_at i b (as_inner node) = (stuck, b)
next_at i b (as_meta meta) = (stuck, b)

-- `BTreeIndex::scanNext`
unfoldable pub scan_next : Scanner → Returned RecordId × Scanner
unfolding next_at
scan_next b =
    if b.scan_executing
    then elim b.next_entry [
      | none ↦ (throws index_scan_completed, b)
      | some i ↦ next_at i b ((store b).page b.current_page_num)
    ]
    else (throws scan_not_initialized, b)

-- The place in the keys where startScan goes down: the first key that is not less, or the last.
unfoldable pub way_down : ℕ → ℕ → List ℕ → ℕ
way_down low zero keys = 0
way_down low (suc n) [] = 0
way_down low (suc n) (k ∷ keys) = if leb low k || n == 0 then 0 else suc (way_down low n keys)

-- The page of the child there.
unfoldable pub page_down : ℕ → ℕ → InnerNode → ℕ
unfolding way_down
page_down occupancy low node =
    let i = way_down low occupancy node.key_array in
    let p = get_or node.page_array (if ltb low (get_or node.key_array i 0) then i else i + 1) 0 in
    if p == 0 then get_or node.page_array i 0 else p

-- A round of the loop of startScan at the current page: the leaf, or what follows at a node.
unfoldable pub down_at :
    Bool
    → Scanner
    → (InnerNode → Option (LeafNode × Scanner))
    → Content
    → Option (LeafNode × Scanner)
down_at is_leaf b f (as_leaf leaf) = if is_leaf then some (leaf, b) else none
down_at is_leaf b f (as_inner node) = if is_leaf then none else f node
down_at is_leaf b f (as_meta meta) = none

-- The loop of startScan from the current page, which is pinned, down to a leaf. The source reads the level
-- of a node when its page is unpinned.
unfoldable pub go_down : ℕ → ℕ → ℕ → Bool → Scanner → Option (LeafNode × Scanner)
unfolding page_down move_to down_at
go_down zero occupancy low is_leaf b = none
go_down (suc fuel) occupancy low is_leaf b =
    down_at is_leaf b
      (λ node.
        go_down fuel occupancy low (node.level == 1) (move_to (page_down occupancy low node) b))
      ((store b).page b.current_page_num)

pub data Search : Type 0 where
  found : ℕ → Search
  not_found : Search
  beyond : Search

abbrev pub later : Search → Search
later (found i) = found (suc i)
later not_found = not_found
later beyond = beyond

-- The loop of startScan over the first entries of a leaf.
unfoldable pub first_entry : Scanner → ℕ → List ℕ → List RecordId → Search
first_entry b zero keys rids = not_found
first_entry b (suc n) [] rids = not_found
first_entry b (suc n) (k ∷ keys) [] = not_found
first_entry b (suc n) (k ∷ keys) (r ∷ rids) =
    let rest = later (first_entry b n keys rids) in
    if ltb b.high_val k
    then beyond
    else if r.page_number == 0
    then not_found
    else if (ltb b.low_val k && ltb k b.high_val) || (k == b.low_val && is_gte b.low_op)
    then found 0
    else rest

-- The end of startScan, at a leaf.
unfoldable pub from_entry : LeafNode → Scanner → Search → Returned Unit × Scanner
unfolding move_to
from_entry leaf b (found i) = (ok tt, record b { next_entry = some i })
from_entry leaf b beyond = (throws no_such_key_found, record b { next_entry = none })
from_entry leaf b not_found =
    if leaf.right_sib == 0
    then (throws no_such_key_found, record b { next_entry = none })
    else (ok tt, record (move_to leaf.right_sib b) { next_entry = some 0 })

unfoldable pub at_leaf : ℕ → Option (LeafNode × Scanner) → Scanner → Returned Unit × Scanner
unfolding first_entry from_entry
at_leaf occupancy none b = (stuck, b)
at_leaf occupancy (some (leaf, b')) b =
    from_entry leaf b' (first_entry b' occupancy leaf.key_array leaf.rid_array)

-- startScan from the root on, whose page is pinned.
unfoldable pub from_root : Layout → Scanner → Content → Returned Unit × Scanner
unfolding go_down at_leaf
from_root layout b (as_meta meta) =
    at_leaf layout.leaf_occupancy
      (go_down meta.height layout.node_occupancy b.low_val (meta.height == 1) b) b
from_root layout b (as_leaf leaf) = (stuck, b)
from_root layout b (as_inner node) = (stuck, b)

-- startScan from the header page on.
unfoldable pub from_header : Layout → Scanner → Returned Unit × Scanner
unfolding from_root read_page un_pin_page
from_header layout b =
    let header = b.index.header_page_num in
    let root = b.index.root_page_num in
    let s = un_pin_page header (read_page header (store b)) in
    from_root layout
      (record (with_store (read_page root s) b) { scan_executing = true; current_page_num = root })
      ((store b).page header)

-- `BTreeIndex::startScan`
unfoldable pub start_scan : Layout → ℕ → Operator → ℕ → Operator → Scanner → Returned Unit × Scanner
unfolding end_scan from_header
start_scan layout low low_op high high_op b =
    let b' = record b { low_op = low_op; high_op = high_op; low_val = low; high_val = high } in
    if not (is_low low_op) || not (is_high high_op)
    then (throws bad_opcodes, b)
    else if ltb high low
    then (throws bad_scanrange, b')
    else from_header layout (if b.scan_executing then (end_scan b').1 else b')

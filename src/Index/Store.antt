-- ===== src/Index/Store.antt =====
-- The pages of an index file of p3/src, as badgerdb::BTreeIndex uses them through its buffer manager: what
-- is on a page, how often it is pinned, and the number of the next page that the file gives
-- (BlobFile::allocatePage of file.cpp counts them). The pool is never full, and a page is what was last
-- written to it. A page is cast to one of three structures.
use cs564_projects.Prelude.{ℕ, ◌+◌, ◌-◌, false, ◌≡◌, ◌≢◌, arith, ◌==◌, if◌then◌else◌}
use cs564_projects.Index.Leaf.{LeafNode}
use cs564_projects.Index.Inner.{InnerNode}

-- struct IndexMetaInfo, less what describes the relation
pub record MetaInfo : Type 0 where
  pub root_page_no : ℕ
  pub height : ℕ

pub data Content : Type 0 where
  as_leaf : LeafNode → Content
  as_inner : InnerNode → Content
  as_meta : MetaInfo → Content

-- The occupancies of the nodes, and a new page cast to each structure.
pub record Layout : Type 0 where
  pub leaf_occupancy : ℕ
  pub node_occupancy : ℕ
  pub new_leaf : LeafNode
  pub new_inner : InnerNode

pub record Store : Type 0 where
  pub page : ℕ → Content
  pub pins : ℕ → ℕ
  pub next_page : ℕ

abbrev pub at {ℓ} : {A : Type ℓ} → (ℕ → A) → ℕ → A → ℕ → A
at f p a q = if p == q then a else f q

pub at_other {ℓ} : {A : Type ℓ} (f : ℕ → A) (p q : ℕ) (a : A) → p ≢ q → at f p a q ≡ f q
at_other f p q a other = let t : (p == q) ≡ false = ground arith in rw t

-- `bufMgr->readPage`
unfoldable pub read_page : ℕ → Store → Store
read_page p s = record s { pins = at s.pins p (s.pins p + 1) }

-- `bufMgr->unPinPage`
unfoldable pub un_pin_page : ℕ → Store → Store
un_pin_page p s = record s { pins = at s.pins p (s.pins p - 1) }

-- `bufMgr->allocPage`; the number of the page is the old `next_page`
unfoldable pub alloc_page : Store → Store
alloc_page s = record s {
  pins = at s.pins s.next_page (s.pins s.next_page + 1);
  next_page = s.next_page + 1;
}

-- What is written through the pointer to a page.
unfoldable pub write : ℕ → Content → Store → Store
write p node s = record s { page = at s.page p node }

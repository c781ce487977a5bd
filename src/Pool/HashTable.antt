-- ===== src/Pool/HashTable.antt =====
-- badgerdb::BufHashTbl of p2/src/bufHashTbl.h and bufHashTbl.cpp: a chained table from a file and a
-- page number to a frame. A file is known by the number of its name, as the source compares files by
-- name; `std::hash` is a parameter. A chain is a list of buckets, its head first.
pub mod Chains
pub mod Laws
use Prim.Native.Nat.{bit_xor}
use cs564_projects.Prelude.{
  ℕ, ◌%◌, Bool, true, false, ◌&&◌, List, [], ◌∷◌, Option, none, some, ◌==◌, if◌then◌else◌, get_or,
  set, replicate,
}
use cs564_projects.Pool.Outcome.{Outcome, ok, throw, hash_already_present, hash_not_found}

-- std::hash<std::string> of a file's name and std::hash<PageId> of a page number
pub record Hash : Type 0 where
  pub of_name : ℕ → ℕ
  pub of_page : ℕ → ℕ

-- struct hashBucket, less its link
pub record Bucket : Type 0 where
  pub file : ℕ
  pub page_no : ℕ
  pub frame_no : ℕ

pub record BufHashTbl : Type 0 where
  pub ht_size : ℕ
  pub ht : List (List Bucket)

-- `BufHashTbl::BufHashTbl`
abbrev pub create : ℕ → BufHashTbl
create n = record { ht_size = n; ht = replicate n [] }

-- `tmpBuc->file == file && tmpBuc->pageNo == pageNo`
unfoldable pub is_for : ℕ → ℕ → Bucket → Bool
is_for file page_no b = b.file == file && b.page_no == page_no

-- The walk along a chain: the first bucket of the page.
unfoldable pub find_bucket : ℕ → ℕ → List Bucket → Option Bucket
unfolding is_for
find_bucket file page_no [] = none
find_bucket file page_no (b ∷ chain) =
    if is_for file page_no b then some b else find_bucket file page_no chain

-- The walk of `remove`, which unlinks the first bucket of the page.
unfoldable pub unlink : ℕ → ℕ → List Bucket → List Bucket
unfolding is_for
unlink file page_no [] = []
unlink file page_no (b ∷ chain) =
    if is_for file page_no b then chain else b ∷ unlink file page_no chain

module _ (h : Hash) where
  -- `BufHashTbl::hash`
  unfoldable pub hash : BufHashTbl → ℕ → ℕ → ℕ
  hash t file page_no = bit_xor (h.of_name file) (h.of_page page_no) % t.ht_size

  abbrev pub chain_of : BufHashTbl → ℕ → ℕ → List Bucket
  chain_of t file page_no = get_or t.ht (hash t file page_no) []

  -- `BufHashTbl::insert`
  unfoldable pub insert : BufHashTbl → ℕ → ℕ → ℕ → Outcome BufHashTbl
  unfolding hash find_bucket
  insert t file page_no frame_no = elim (find_bucket file page_no (chain_of t file page_no)) [
    | some b ↦ throw hash_already_present
    | none ↦
        let bucket : Bucket = record { file = file; page_no = page_no; frame_no = frame_no } in
        ok (record t { ht = set t.ht (hash t file page_no) (bucket ∷ chain_of t file page_no) })
  ]

  -- `BufHashTbl::lookup`
  unfoldable pub lookup : BufHashTbl → ℕ → ℕ → Outcome ℕ
  unfolding hash find_bucket
  lookup t file page_no = elim (find_bucket file page_no (chain_of t file page_no)) [
    | some b ↦ ok b.frame_no
    | none ↦ throw hash_not_found
  ]

  -- `BufHashTbl::remove`
  unfoldable pub remove : BufHashTbl → ℕ → ℕ → Outcome BufHashTbl
  unfolding hash find_bucket unlink
  remove t file page_no = elim (find_bucket file page_no (chain_of t file page_no)) [
    | some b ↦ ok (record t {
      ht = set t.ht (hash t file page_no) (unlink file page_no (chain_of t file page_no));
    })
    | none ↦ throw hash_not_found
  ]

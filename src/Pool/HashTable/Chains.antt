-- ===== src/Pool/HashTable/Chains.antt =====
-- The chains of the hash table of p2/src/bufHashTbl.cpp.
use cs564_projects.Prelude.{
  ℕ, Bool, true, ◌&&◌, List, [], ◌∷◌, none, some, ◌==◌, if◌then◌else◌, ◌≡◌, arith, Bool-cases, inl,
  inr,
}
use cs564_projects.Pool.HashTable.{Bucket, is_for, find_bucket, unlink}

-- No page has two buckets in a chain.
abbrev pub Distinct : List Bucket → Type 0
Distinct [] = Unit
Distinct (b ∷ chain) = (find_bucket b.file b.page_no chain ≡ none) × Distinct chain

-- The test for one page and the test for another.
abbrev pub same_page : ℕ → ℕ → ℕ → ℕ → Bool
same_page f p g q = f == g && p == q

find_bucket_same :
    (f p : ℕ) (chain : List Bucket) (b : Bucket)
    → find_bucket f p chain ≡ some b
    → (b.file ≡ f) × (b.page_no ≡ p)
unfolding find_bucket
find_bucket_same f p [] b e = cc
find_bucket_same f p (c ∷ chain) b e = ground (arith, find_bucket_same f p chain b)

pub is_for-same :
    (f p g q : ℕ) (b : Bucket) → same_page f p g q ≡ true → is_for f p b ≡ is_for g q b
unfolding is_for
is_for-same f p g q b e = ground arith

find_bucket-page :
    (f p g q : ℕ) (b : Bucket) (chain : List Bucket)
    → is_for f p b ≡ true
    → find_bucket b.file b.page_no chain ≡ none
    → (if same_page f p g q then none else (if is_for g q b then some b else find_bucket g q chain))
      ≡ find_bucket g q chain
unfolding is_for
find_bucket-page f p g q b chain e d = ground arith

pub find_bucket-unlink :
    (f p g q : ℕ) (chain : List Bucket)
    → Distinct chain
    → find_bucket g q (unlink f p chain)
      ≡ (if same_page f p g q then none else find_bucket g q chain)
unfolding find_bucket unlink
find_bucket-unlink f p g q [] d = ground arith
find_bucket-unlink f p g q (b ∷ chain) d = elim (Bool-cases (is_for f p b)) [
  | inl e ↦ rw e (ground (arith, find_bucket-page f p g q b chain e d.0))
  | inr e ↦ rw e (ground (arith, find_bucket-unlink f p g q chain d.1, is_for-same f p g q b))
]

pub Distinct-unlink : (f p : ℕ) (chain : List Bucket) → Distinct chain → Distinct (unlink f p chain)
unfolding find_bucket unlink
Distinct-unlink f p [] d = tt
Distinct-unlink f p (b ∷ chain) d = elim (Bool-cases (is_for f p b)) [
  | inl e ↦ rw e d.1
  | inr e ↦ rw e (
    ground (arith, find_bucket-unlink f p b.file b.page_no chain d.1),
    Distinct-unlink f p chain d.1,
  )
]

-- ===== src/Pool/HashTable/Laws.antt =====
-- The hash table of p2/src/bufHashTbl.cpp as a partial function from pages to frames.
use cs564_projects.Prelude.{
  ℕ, ◌<◌, true, false, List, [], ◌∷◌, Option, none, some, ◌==◌, if◌then◌else◌, get_or, set, length,
  ◌≡◌, refl, ◌∙◌, arith, get_or-set_self, get_or-set_ne, get_or-replicate, length-set, Bool-cases,
  inl, inr, length-replicate,
}
use cs564_projects.Pool.Outcome.{ok, throw, hash_already_present, hash_not_found}
use cs564_projects.Pool.HashTable.{
  Hash, Bucket, BufHashTbl, create, is_for, find_bucket, unlink, hash, chain_of, insert, lookup,
  remove,
}
use cs564_projects.Pool.HashTable.Chains.{Distinct, same_page, find_bucket-unlink, Distinct-unlink}

pub record IsValid (t : BufHashTbl) : Type 0 where
  pub width : length t.ht ≡ t.ht_size
  pub wide : 0 < t.ht_size
  pub distinct : (i : ℕ) → Distinct (get_or t.ht i [])

abbrev pub frame_of : Option Bucket → Option ℕ
frame_of none = none
frame_of (some b) = some b.frame_no

-- The frame of a page.
unfoldable pub view : Hash → BufHashTbl → ℕ → ℕ → Option ℕ
view h t file page_no = frame_of (find_bucket file page_no (chain_of h t file page_no))

hash-lt : (h : Hash) (t : BufHashTbl) (f p : ℕ) → 0 < t.ht_size → hash h t f p < t.ht_size
unfolding hash
hash-lt h t f p l = ground arith

hash-same :
    (h : Hash) (t : BufHashTbl) (f p g q : ℕ)
    → same_page f p g q ≡ true
    → hash h t f p ≡ hash h t g q
hash-same h t f p g q e =
    let e₁ : f ≡ g = ground arith in let e₂ : p ≡ q = ground arith in rw (e₁, e₂)

-- A change of one page's chain that is a change of the page's bucket alone.
module _ (h : Hash) (t : BufHashTbl) (valid : IsValid t) (f p : ℕ) (v : Option ℕ)
    (chain : List Bucket) (distinct : Distinct chain)
    (reads : (g q : ℕ)
      → frame_of (find_bucket g q chain)
        ≡ (if same_page f p g q then v else frame_of (find_bucket g q (chain_of h t f p)))) where
  abbrev changed : BufHashTbl
  changed = record t { ht = set t.ht (hash h t f p) chain }

  inside : hash h t f p < length t.ht
  inside = omega (arith, hash-lt h t f p valid.wide, valid.width)

  changed-IsValid : IsValid changed
  changed-IsValid = record {
    width = length-set t.ht (hash h t f p) chain ∙ valid.width;
    wide = valid.wide;
    distinct = λ i. elim (Bool-cases (hash h t f p == i)) [
      | inl e ↦
          let here : i ≡ hash h t f p = ground arith in
          rw (here, get_or-set_self t.ht (hash h t f p) chain [] inside) distinct
      | inr e ↦ rw (get_or-set_ne t.ht (hash h t f p) i chain [] (ground arith)) (valid.distinct i)
    ];
  }

  view-changed : (g q : ℕ) → view h changed g q ≡ (if same_page f p g q then v else view h t g q)
  unfolding view
  view-changed g q = elim (Bool-cases (hash h t f p == hash h t g q)) [
    | inl e ↦
        let here : hash h t g q ≡ hash h t f p = ground arith in
        rw (hash-same_table g q, here, get_or-set_self t.ht (hash h t f p) chain [] inside)
          (reads g q)
    | inr e ↦
        let apart : same_page f p g q ≡ false = ground (arith, hash-same h t f p g q) in
        rw (
          hash-same_table g q,
          get_or-set_ne t.ht (hash h t f p) (hash h t g q) chain [] (ground arith),
          apart,
        )
  ]
    where
      hash-same_table : (g q : ℕ) → hash h changed g q ≡ hash h t g q
      hash-same_table g q = unfold hash in refl

-- The table `u` is valid and reads as `t` does, but for the value `v` at one page.
pub record Becomes (h : Hash) (t : BufHashTbl) (f p : ℕ) (v : Option ℕ) (u : BufHashTbl)
    : Type 0 where
  pub valid : IsValid u
  pub reads : (g q : ℕ) → view h u g q ≡ (if same_page f p g q then v else view h t g q)

frame_of-none : (b : Option Bucket) → frame_of b ≡ none → b ≡ none
frame_of-none none e = refl
frame_of-none (some b) e = cc

frame_of-some :
    (b : Option Bucket) (k : ℕ)
    → frame_of b ≡ some k
    → (c : Bucket) × (b ≡ some c) × (c.frame_no ≡ k)
frame_of-some none k e = absurd (cc)
frame_of-some (some b) k e = (b, refl, cc)

-- `insert` of a page that has no frame succeeds: the table stays valid, the page has the frame, and no
-- other page changes.
pub insert-Becomes :
    (h : Hash) (t : BufHashTbl) (f p k : ℕ)
    → IsValid t
    → view h t f p ≡ none
    → (u : BufHashTbl) × (insert h t f p k ≡ ok u) × Becomes h t f p (some k) u
unfolding insert view find_bucket is_for
insert-Becomes h t f p k valid e =
    let b : Bucket = record { file = f; page_no = p; frame_no = k } in
    let absent = frame_of-none (find_bucket f p (chain_of h t f p)) e in
    let distinct : Distinct (b ∷ chain_of h t f p) = (absent, valid.distinct (hash h t f p)) in
    let reads : (g q : ℕ)
        → frame_of (find_bucket g q (b ∷ chain_of h t f p))
          ≡ (if same_page f p g q then some k else frame_of (find_bucket g q (chain_of h t f p))) =
      λ g q. ground arith in
    (
      record t { ht = _ },
      rw (insert, absent),
      record {
        valid = changed-IsValid h t valid f p (some k) (b ∷ chain_of h t f p) distinct reads;
        reads = view-changed h t valid f p (some k) (b ∷ chain_of h t f p) distinct reads;
      },
    )

-- `insert` of a page that has a frame throws, and so changes nothing.
pub insert_present :
    (h : Hash) (t : BufHashTbl) (f p k j : ℕ)
    → view h t f p ≡ some j
    → insert h t f p k ≡ throw hash_already_present
unfolding insert view
insert_present h t f p k j e =
    let (b, found, _) = frame_of-some (find_bucket f p (chain_of h t f p)) j e in rw (insert, found)

-- `lookup` returns the frame of the page, and throws if it has none.
pub lookup-view :
    (h : Hash) (t : BufHashTbl) (f p : ℕ)
    → lookup h t f p ≡ elim (view h t f p) [ none ↦ throw hash_not_found | some k ↦ ok k ]
unfolding lookup view
lookup-view h t f p = ground arith

-- `remove` of a page that has a frame succeeds: the table stays valid, the page has no frame, and no
-- other page changes.
pub remove-Becomes :
    (h : Hash) (t : BufHashTbl) (f p k : ℕ)
    → IsValid t
    → view h t f p ≡ some k
    → (u : BufHashTbl) × (remove h t f p ≡ ok u) × Becomes h t f p none u
unfolding remove view
remove-Becomes h t f p k valid e =
    let (b, found, _) = frame_of-some (find_bucket f p (chain_of h t f p)) k e in
    let d = valid.distinct (hash h t f p) in
    let distinct = Distinct-unlink f p (chain_of h t f p) d in
    let reads : (g q : ℕ)
        → frame_of (find_bucket g q (unlink f p (chain_of h t f p)))
          ≡ (if same_page f p g q then none else frame_of (find_bucket g q (chain_of h t f p))) =
      λ g q. ground (arith, find_bucket-unlink f p g q (chain_of h t f p) d) in
    (
      record t { ht = _ },
      rw (remove, found),
      record {
        valid = changed-IsValid h t valid f p none (unlink f p (chain_of h t f p)) distinct reads;
        reads = view-changed h t valid f p none (unlink f p (chain_of h t f p)) distinct reads;
      },
    )

-- `remove` of a page that has no frame throws.
pub remove_absent :
    (h : Hash) (t : BufHashTbl) (f p : ℕ)
    → view h t f p ≡ none
    → remove h t f p ≡ throw hash_not_found
unfolding remove view
remove_absent h t f p e =
    let absent = frame_of-none (find_bucket f p (chain_of h t f p)) e in rw (remove, absent)

-- A new table is valid if it has a chain, and no page has a frame.
pub create-IsValid :
    (h : Hash) (n : ℕ) → 0 < n → IsValid (create n) × ((f p : ℕ) → view h (create n) f p ≡ none)
unfolding view find_bucket
create-IsValid h n l = (
  record {
    width = length-replicate n [];
    wide = l;
    distinct = λ i. let e = get_or-replicate {A = List Bucket} n i [] in rw e tt;
  },
  λ f p. let e = get_or-replicate {A = List Bucket} n (hash h (create n) f p) [] in rw e,
)

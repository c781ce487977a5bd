-- ===== src/Index/Scan/First.antt =====
-- The first entry of a scan of p3/src/btree.cpp, in the leaf that startScan has gone down to.
use cs564_projects.Prelude.{
  ℕ, zero, suc, ◌+◌, Bool-cases, ◌<◌, ◌≤◌, true, false, ◌&&◌, ◌||◌, List, [], ◌∷◌, ◌++◌, some, ltb,
  ◌==◌, ◌≡◌, refl, ap, sym, ◌∙◌, arith, inl, inr, ◌⊎◌, length, drop,
}
use mathlib.Core.Path.{subst}
use cs564_projects.Index.Entry.{Entry, keys, values}
use cs564_projects.Index.Leaf.{RecordId, LeafNode}
use cs564_projects.Index.Leaf.Entries.{Holds, AllUsed}
use cs564_projects.Index.Store.{as_leaf}
use cs564_projects.Index.Scan.{
  Scanner, found, first_entry, at_leaf, from_entry, ok, is_gte, store, Operator, lt, lte, gte, gt,
}
use cs564_projects.Index.Scan.Range.{Ahead, at_entry, Chain, flat, in_range, limit, below_end}

-- The least key of the range that begins at `l`.
abbrev pub start : Operator → ℕ → ℕ
start lt l = l + 1
start lte l = l + 1
start gte l = l
start gt l = l + 1

-- The keys are below the range.
abbrev pub Early : Scanner → List (Entry RecordId) → Type 0
Early b [] = Unit
Early b (e ∷ es) = (e.key < start b.low_op b.low_val) × Early b es

-- The key is in the range, and it is below the high value or is the low value.
abbrev pub IsFirst : Scanner → ℕ → Type 0
IsFirst b k =
    (start b.low_op b.low_val ≤ k)
    × (k < limit b.high_op b.high_val)
    × (k < b.high_val ⊎ k ≡ b.low_val)

from_start : (op : Operator) (l k : ℕ) → start op l ≤ k → (l < k) ⊎ ((k ≡ l) × (is_gte op ≡ true))
from_start lt l k h = inl (omega arith)
from_start lte l k h = inl (omega arith)
from_start gt l k h = inl (omega arith)
from_start gte l k h = elim (Bool-cases (ltb l k)) [
  | inl t ↦ inl (ground arith)
  | inr t ↦ inr (ground arith, refl)
]

before_suc : (l k : ℕ) → k < l + 1 → (k < l) ⊎ ((k ≡ l) × (false ≡ false))
before_suc l k h = elim (Bool-cases (ltb k l)) [
  | inl t ↦ inl (ground arith)
  | inr t ↦ inr (ground arith, refl)
]

before_start :
    (op : Operator) (l k : ℕ) → k < start op l → (k < l) ⊎ ((k ≡ l) × (is_gte op ≡ false))
before_start gte l k h = inl h
before_start lt l k h = before_suc l k h
before_start lte l k h = before_suc l k h
before_start gt l k h = before_suc l k h

limit-le : (op : Operator) (h : ℕ) → limit op h ≤ h + 1
limit-le lt h = omega arith
limit-le lte h = omega arith
limit-le gte h = omega arith
limit-le gt h = omega arith

IsFirst-range : (b : Scanner) (k : ℕ) → IsFirst b k → b.low_val ≤ b.high_val
IsFirst-range b k (from, to, inner) = elim (from_start b.low_op b.low_val k from) [
  | inl l ↦ omega (arith, limit-le b.high_op b.high_val)
  | inr (same, on) ↦ omega (arith, limit-le b.high_op b.high_val)
]

early_test :
    (b : Scanner) (k : ℕ)
    → b.low_val ≤ b.high_val
    → (k < b.low_val ⊎ (k ≡ b.low_val) × (is_gte b.low_op ≡ false))
    → (ltb b.high_val k ≡ false)
      × (((ltb b.low_val k && ltb k b.high_val) || (k == b.low_val && is_gte b.low_op)) ≡ false)
early_test b k range (inl l) =
    let a : ltb b.low_val k ≡ false = ground arith in
    let c : (k == b.low_val) ≡ false = ground arith in (ground arith, rw (a, c))
early_test b k range (inr (same, off)) =
    let a : ltb b.low_val k ≡ false = ground arith in
    let c : (k == b.low_val) ≡ true = ground arith in (ground arith, rw (a, c, off))

first_test :
    (b : Scanner) (k : ℕ)
    → b.low_val ≤ b.high_val
    → (b.low_val < k) ⊎ (k ≡ b.low_val) × (is_gte b.low_op ≡ true)
    → (k < b.high_val ⊎ k ≡ b.low_val)
    → (ltb b.high_val k ≡ false)
      × (((ltb b.low_val k && ltb k b.high_val) || (k == b.low_val && is_gte b.low_op)) ≡ true)
first_test b k range (inl l) (inr m) = absurd (omega arith)
first_test b k range (inl l) (inl m) =
    let a : ltb b.low_val k ≡ true = ground arith in
    let c : ltb k b.high_val ≡ true = ground arith in (ground arith, rw (a, c))
first_test b k range (inr (same, on)) inner =
    let a : ltb b.low_val k ≡ false = ground arith in
    let c : (k == b.low_val) ≡ true = ground arith in (ground arith, rw (a, c, on))

first_entry-found :
    (b : Scanner) (n : ℕ) (early : List (Entry RecordId)) (e : Entry RecordId)
    (rest : List (Entry RecordId)) (ks : List ℕ) (rs : List RecordId)
    → b.low_val ≤ b.high_val
    → length early < n
    → Early b early
    → IsFirst b e.key
    → AllUsed (early ++ (e ∷ rest))
    → first_entry b n (keys (early ++ (e ∷ rest)) ++ ks) (values (early ++ (e ∷ rest)) ++ rs)
      ≡ found (length early)
unfolding first_entry
first_entry-found b zero early e rest ks rs range room passed first used = absurd (omega arith)
first_entry-found b (suc n) [] e rest ks rs range room passed first used =
    let (from, to, inner) = first in
    let (high, low) = first_test b e.key range (from_start b.low_op b.low_val e.key from) inner in
    let page : (e.value.page_number == 0) ≡ false = ground (arith, used.0) in rw (high, page, low)
first_entry-found b (suc n) (y ∷ early) e rest ks rs range room passed first used =
    let (high, low) = early_test b y.key range (before_start b.low_op b.low_val y.key passed.0) in
    let page : (y.value.page_number == 0) ≡ false = ground (arith, used.0) in
    let more = first_entry-found b n early e rest ks rs range (omega arith) passed.1 first used.1 in
    rw (high, page, low, more)

length_early :
    (xs : List (Entry RecordId)) (e : Entry RecordId) (ys : List (Entry RecordId))
    → length xs < length (xs ++ (e ∷ ys))
length_early [] e ys = omega arith
length_early (x ∷ xs) e ys = omega (arith, length_early xs e ys)

drop_early {ℓ} : {A : Type ℓ} (xs ys : List A) → drop (length xs) (xs ++ ys) ≡ ys
drop_early [] ys = refl
drop_early (x ∷ xs) ys = drop_early xs ys

-- Where startScan has gone down to a leaf, the current page, whose entries are some below the range, `e` in
-- the range, and others, and the key of `e` is below the high value or is the low value, startScan returns,
-- and what the scan has still to return is `e` and those behind it in the leaf and in the leaves linked from
-- it, up to the first above the range. The range begins behind the low value for GT and with it for GTE,
-- and ends before the high value for LT and with it for LTE.
pub at_leaf-Ahead :
    (occupancy : ℕ) (leaf : LeafNode) (early rest : List (Entry RecordId)) (e : Entry RecordId)
    (more : List (List (Entry RecordId))) (holds : Holds occupancy leaf (early ++ (e ∷ rest)))
    (b b' : Scanner)
    → (store b).page b.current_page_num ≡ as_leaf leaf
    → Chain occupancy (store b).page leaf.right_sib more
    → Early b early
    → IsFirst b e.key
    → (let r = at_leaf occupancy (some (leaf, b)) b' in
        (r.0 ≡ ok tt) × Ahead occupancy r.1 (e ∷ in_range (below_end b) (rest ++ flat more)))
unfolding at_leaf from_entry
at_leaf-Ahead occupancy leaf early rest e more holds b b' here chain passed first =
    let range = IsFirst-range b e.key first in
    let es = early ++ (e ∷ rest) in
    let room : length early < occupancy = omega (arith, holds.room, length_early early e rest) in
    let run : first_entry b occupancy leaf.key_array leaf.rid_array ≡ found (length early) =
      ap (λ ks. first_entry b occupancy ks leaf.rid_array) holds.key_array
      ∙ ap (first_entry b occupancy (keys es ++ (holds.key_end ∷ holds.key_rest))) holds.rid_array
      ∙ first_entry-found b occupancy early e rest (holds.key_end ∷ holds.key_rest)
          (holds.rid_end ∷ holds.rid_rest) range room passed first holds.used in
    let at = record b { next_entry = some (length early) } in
    let ahead : Ahead occupancy at (e ∷ in_range (below_end at) (rest ++ flat more)) =
      at_entry (length early) leaf es rest e more refl here holds (drop_early early (e ∷ rest))
        chain in
    subst
      (λ x.
        ((from_entry leaf b x).0 ≡ ok tt)
        × Ahead occupancy (from_entry leaf b x).1 (e ∷ in_range (below_end b) (rest ++ flat more)))
      (sym run) (refl, ahead)

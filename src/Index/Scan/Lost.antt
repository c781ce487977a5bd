-- ===== src/Index/Scan/Lost.antt =====
-- Where startScan of p3/src/btree.cpp misses entries that are in range.
use cs564_projects.Prelude.{
  ℕ, zero, suc, ◌+◌, ◌-◌, ◌<◌, ◌≤◌, Bool, true, false, ◌&&◌, ◌||◌, List, [], ◌∷◌, ◌++◌, some, ltb,
  leb, ◌==◌, ◌≡◌, refl, ap, ◌∙◌, arith, inl, inr, ◌⊎◌, get_or, length, set,
}
use cs564_projects.Index.Entry.{Entry, keys, values}
use cs564_projects.Index.Leaf.{RecordId, LeafNode}
use cs564_projects.Index.Leaf.Entries.{Holds, AllUsed}
use cs564_projects.Index.Insertion.{new_root}
use cs564_projects.Index.Store.{Layout}
use cs564_projects.Index.Scan.{
  Scanner, beyond, first_entry, way_down, page_down, at_leaf, is_gte, from_entry, throws,
  no_such_key_found,
}

-- All keys are less.
abbrev pub Below : ℕ → List ℕ → Type 0
Below low [] = Unit
Below low (k ∷ ks) = (k < low) × Below low ks

way_down-Below :
    (low n : ℕ) (ks : List ℕ) → Below low ks → length ks ≡ suc n → way_down low n ks ≡ n - 1
unfolding way_down
way_down-Below low zero ks below l = refl
way_down-Below low (suc n) [] below l = absurd (omega arith)
way_down-Below low (suc zero) (k ∷ ks) below l = let t : leb low k ≡ false = ground arith in rw t
way_down-Below low (suc (suc n)) (k ∷ ks) below l =
    let t : leb low k ≡ false = ground arith in
    let rest = way_down-Below low (suc n) ks below.1 (omega arith) in
    let u : (suc n == 0) ≡ false = ground arith in rw (t, u, rest) (omega arith)

get_or-Below : (low : ℕ) (ks : List ℕ) (i : ℕ) → 0 < low → Below low ks → get_or ks i 0 < low
get_or-Below low [] i l below = l
get_or-Below low (k ∷ ks) zero l below = below.0
get_or-Below low (k ∷ ks) (suc i) l below = get_or-Below low ks i l below.1

Below-set : (low x : ℕ) (ks : List ℕ) (i : ℕ) → x < low → Below low ks → Below low (set ks i x)
Below-set low x [] i l below = tt
Below-set low x (k ∷ ks) zero l below = (l, below.1)
Below-set low x (k ∷ ks) (suc i) l below = (below.0, Below-set low x ks i l below.1)

length-set {ℓ} : {A : Type ℓ} (xs : List A) (i : ℕ) (a : A) → length (set xs i a) ≡ length xs
length-set [] i a = refl
length-set (x ∷ xs) zero a = refl
length-set (x ∷ xs) (suc i) a = ap suc (length-set xs i a)

set_behind :
    (xs : List ℕ) (a b i : ℕ)
    → get_or (set (set xs 0 a) 1 b) (suc (suc i)) 0 ≡ get_or xs (suc (suc i)) 0
set_behind [] a b i = refl
set_behind (x ∷ []) a b i = refl
set_behind (x ∷ y ∷ xs) a b i = refl

-- After insertEntry has made a new root, whose keys behind the first are those of the new page, and where
-- all keys of the new page are less than the low value and so is the one key of the root, startScan goes
-- down from the root to page 0, which no file has. The occupancy is at least 3, and the new page has no
-- children.
pub page_down-new_root :
    (layout : Layout) (low old least child : ℕ) (is_leaf : Bool)
    → 3 ≤ layout.node_occupancy
    → length layout.new_inner.key_array ≡ suc layout.node_occupancy
    → least < low
    → Below low layout.new_inner.key_array
    → ((i : ℕ) → get_or layout.new_inner.page_array i 0 ≡ 0)
    → page_down layout.node_occupancy low (new_root layout old is_leaf (child, least)) ≡ 0
unfolding page_down new_root
page_down-new_root layout low old least child is_leaf wide places l below blank =
    let n = layout.node_occupancy in
    let ks = set layout.new_inner.key_array 0 least in
    let below' = Below-set low least layout.new_inner.key_array 0 l below in
    let way : way_down low n ks ≡ n - 1 =
      way_down-Below low n ks below'
        (omega (arith, length-set layout.new_inner.key_array 0 least, places)) in
    let key = get_or-Below low ks (n - 1) (omega arith) below' in
    let t : ltb low (get_or ks (n - 1) 0) ≡ false = ground (arith, key) in
    let two : n - 1 ≡ suc (suc (n - 3)) = omega (arith, wide) in
    let three : n - 1 + 1 ≡ suc (suc (n - 2)) = omega (arith, wide) in
    let last : get_or (set (set layout.new_inner.page_array 0 old) 1 child) (n - 1) 0 ≡ 0 =
      ap (λ i. get_or (set (set layout.new_inner.page_array 0 old) 1 child) i 0) two
      ∙ set_behind layout.new_inner.page_array old child (n - 3)
      ∙ blank (suc (suc (n - 3))) in
    let over : get_or (set (set layout.new_inner.page_array 0 old) 1 child) (n - 1 + 1) 0 ≡ 0 =
      ap (λ i. get_or (set (set layout.new_inner.page_array 0 old) 1 child) i 0) three
      ∙ set_behind layout.new_inner.page_array old child (n - 2)
      ∙ blank (suc (suc (n - 2))) in
    rw (way, t, over, last)

-- No entry of the leaf is taken as the first: its key is below the range, or it is the high value, which
-- is in range for LTE, and not the low one.
abbrev pub Passed : Scanner → List (Entry RecordId) → Type 0
Passed b [] = Unit
Passed b (e ∷ es) =
    (e.key < b.low_val ⊎ (e.key ≡ b.high_val) × (b.low_val < b.high_val)) × Passed b es

passed_test :
    (b : Scanner) (k : ℕ)
    → b.low_val ≤ b.high_val
    → (k < b.low_val ⊎ (k ≡ b.high_val) × (b.low_val < b.high_val))
    → (ltb b.high_val k ≡ false)
      × (((ltb b.low_val k && ltb k b.high_val) || (k == b.low_val && is_gte b.low_op)) ≡ false)
passed_test b k range (inl l) =
    let a : ltb b.low_val k ≡ false = ground arith in
    let c : (k == b.low_val) ≡ false = ground arith in (ground arith, rw (a, c))
passed_test b k range (inr (same, l)) =
    let a : ltb k b.high_val ≡ false = ground arith in
    let c : (k == b.low_val) ≡ false = ground arith in
    let d : ltb b.low_val k ≡ true = ground arith in (ground arith, rw (a, c, d))

first_entry-beyond :
    (b : Scanner) (n : ℕ) (es : List (Entry RecordId)) (key_end : ℕ) (key_rest : List ℕ)
    (rid_end : RecordId) (rid_rest : List RecordId)
    → b.low_val ≤ b.high_val
    → length es < n
    → Passed b es
    → AllUsed es
    → b.high_val < key_end
    → first_entry b n (keys es ++ (key_end ∷ key_rest)) (values es ++ (rid_end ∷ rid_rest)) ≡ beyond
unfolding first_entry
first_entry-beyond b zero es key_end key_rest rid_end rid_rest range room passed used l =
    absurd (omega arith)
first_entry-beyond b (suc n) [] key_end key_rest rid_end rid_rest range room passed used l =
    let t : ltb b.high_val key_end ≡ true = ground arith in rw t
first_entry-beyond b (suc n) (e ∷ es) key_end key_rest rid_end rid_rest range room passed used l =
    let (high, low) = passed_test b e.key range passed.0 in
    let page : (e.value.page_number == 0) ≡ false = ground (arith, used.0) in
    let rest =
      first_entry-beyond b n es key_end key_rest rid_end rid_rest range (omega arith) passed.1
        used.1 l in
    rw (high, page, low, rest)

behind_keys :
    (es : List (Entry RecordId)) (k : ℕ) (ks : List ℕ)
    → get_or (keys es ++ (k ∷ ks)) (length es) 0 ≡ k
behind_keys [] k ks = refl
behind_keys (e ∷ es) k ks = behind_keys es k ks

-- Where startScan has gone down to a leaf with room for another entry, the key behind whose entries, which
-- insertUnderNode sets to INT_MAX, is above the range, and each entry of the leaf has a key below the range
-- or the high value as its key, the low value being less, startScan throws NoSuchKeyFoundException: though
-- the high value is in range for LTE, and whatever the leaves to the right hold.
pub at_leaf-Passed :
    (occupancy : ℕ) (leaf : LeafNode) (es : List (Entry RecordId)) (holds : Holds occupancy leaf es)
    (b b' : Scanner)
    → length es < occupancy
    → b.low_val ≤ b.high_val
    → b.high_val < get_or leaf.key_array (length es) 0
    → Passed b es
    → (at_leaf occupancy (some (leaf, b)) b').0 ≡ throws no_such_key_found
unfolding at_leaf from_entry
at_leaf-Passed occupancy leaf es holds b b' room range l passed =
    let end : get_or leaf.key_array (length es) 0 ≡ holds.key_end =
      ap (λ ks. get_or ks (length es) 0) holds.key_array
      ∙ behind_keys es holds.key_end holds.key_rest in
    let run : first_entry b occupancy leaf.key_array leaf.rid_array ≡ beyond =
      ap (λ ks. first_entry b occupancy ks leaf.rid_array) holds.key_array
      ∙ ap (first_entry b occupancy (keys es ++ (holds.key_end ∷ holds.key_rest))) holds.rid_array
      ∙ first_entry-beyond b occupancy es holds.key_end holds.key_rest holds.rid_end holds.rid_rest
          range room passed holds.used (omega (arith, end, l)) in
    ap (λ x. (from_entry leaf b x).0) run

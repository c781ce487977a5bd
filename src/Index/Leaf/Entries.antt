-- ===== src/Index/Leaf/Entries.antt =====
-- The entries of a leaf of p3/src/btree.cpp, as a list.
use cs564_projects.Prelude.{
  ℕ, suc, ◌+◌, ◌<◌, ◌≤◌, false, List, [], ◌∷◌, ◌++◌, ltb, ◌==◌, set, get_or, length, ◌≡◌, refl, ap,
  sym, ◌∙◌, arith, Bool-cases, inl, inr, length-map,
}
use cs564_projects.Index.Leaf.{RecordId, LeafNode, no_rid, entry_num, position, mark_end}
use cs564_projects.Index.Array.{int_max}
use cs564_projects.Index.Entry.{Entry, keys, values, ordered_insert, before, set-append}

-- Every entry has a page.
abbrev pub AllUsed : List (Entry RecordId) → Type 0
AllUsed [] = Unit
AllUsed (e ∷ es) = (0 < e.value.page_number) × AllUsed es

-- The leaf has the entries in its first places, and its next place is marked as the end.
pub record Holds (occupancy : ℕ) (leaf : LeafNode) (es : List (Entry RecordId)) : Type 0 where
  pub room : length es ≤ occupancy
  pub used : AllUsed es
  pub key_end : ℕ
  pub key_rest : List ℕ
  pub rid_end : RecordId
  pub rid_rest : List RecordId
  pub key_array : leaf.key_array ≡ keys es ++ (key_end ∷ key_rest)
  pub rid_array : leaf.rid_array ≡ values es ++ (rid_end ∷ rid_rest)
  pub ends : rid_end.page_number ≡ 0
  pub key_places : length es + length key_rest ≡ occupancy
  pub rid_places : length es + length rid_rest ≡ occupancy

pub ordered_insert-AllUsed :
    (e : Entry RecordId) (es : List (Entry RecordId))
    → 0 < e.value.page_number
    → AllUsed es
    → AllUsed (ordered_insert e es)
ordered_insert-AllUsed e [] l used = (l, tt)
ordered_insert-AllUsed e (x ∷ es) l used = elim (Bool-cases (ltb e.key x.key)) [
  | inl t ↦ rw t (l, used)
  | inr t ↦ rw t (used.0, ordered_insert-AllUsed e es l used.1)
]

pub entry_num-append :
    (es : List (Entry RecordId)) (z : RecordId) (rest : List RecordId)
    → AllUsed es
    → z.page_number ≡ 0
    → entry_num (values es ++ (z ∷ rest)) ≡ length es
unfolding entry_num
entry_num-append [] z rest used e = ground arith
entry_num-append (x ∷ es) z rest used e =
    let t : (x.value.page_number == 0) ≡ false = ground (arith, used.0) in
    rw t (ap suc (entry_num-append es z rest used.1 e))

pub position-before :
    (key : ℕ) (es : List (Entry RecordId)) (k : ℕ) (ks : List ℕ) (z : RecordId)
    (rest : List RecordId)
    → AllUsed es
    → z.page_number ≡ 0
    → position key (keys es ++ (k ∷ ks)) (values es ++ (z ∷ rest)) ≡ length (before key es)
unfolding position
position-before key [] k ks z rest used e = ground arith
position-before key (x ∷ es) k ks z rest used e =
    let t : (x.value.page_number == 0) ≡ false = ground (arith, used.0) in
    elim (Bool-cases (ltb key x.key)) [
      | inl l ↦ rw l
      | inr l ↦ rw (l, t) (ap suc (position-before key es k ks z rest used.1 e))
    ]

-- The end is marked behind the entries.
pub mark_end-Holds :
    (occupancy : ℕ) (leaf : LeafNode) (es : List (Entry RecordId)) (k : ℕ) (ks : List ℕ)
    (z : RecordId) (zs : List RecordId)
    → length es ≤ occupancy
    → AllUsed es
    → leaf.key_array ≡ keys es ++ (k ∷ ks)
    → leaf.rid_array ≡ values es ++ (z ∷ zs)
    → length es + length ks ≡ occupancy
    → length es + length zs ≡ occupancy
    → Holds occupancy (mark_end (length es) leaf) es
unfolding mark_end
mark_end-Holds occupancy leaf es k ks z zs room used a b c d =
    let at_keys = set-append (keys es) k int_max ks in
    let m : length (keys es) ≡ length es = length-map es (λ e. e.key) in
    let m' : length (values es) ≡ length es = length-map es (λ e. e.value) in
    let slot = (get_or leaf.rid_array (length es) no_rid).slot_number in
    let marked : RecordId = record { page_number = 0; slot_number = slot } in
    record {
      room = room;
      used = used;
      key_end = int_max;
      key_rest = ks;
      rid_end = marked;
      rid_rest = zs;
      key_array =
          ap (λ xs. set xs (length es) int_max) a
          ∙ ap (λ i. set (keys es ++ (k ∷ ks)) i int_max) (sym m)
          ∙ at_keys;
      rid_array =
          ap (λ xs. set xs (length es) marked) b
          ∙ ap (λ i. set (values es ++ (z ∷ zs)) i marked) (sym m')
          ∙ set-append (values es) z marked zs;
      ends = refl;
      key_places = c;
      rid_places = d;
    }

-- ===== src/Index/Inner/Children.antt =====
-- The children of an inner node of p3/src/btree.cpp, as a list of keys and pages behind a first page.
use cs564_projects.Prelude.{
  ℕ, suc, ◌+◌, ◌-◌, ◌<◌, ◌≤◌, false, List, [], ◌∷◌, ◌++◌, ltb, ◌==◌, set, length, ◌≡◌, refl, ap,
  sym, ◌∙◌, arith, Bool-cases, inl, inr, length-map, take, drop,
}
use cs564_projects.Index.Array.{int_max, put_in, copy_array}
use cs564_projects.Index.Array.Laws.{write_all-cons}
use cs564_projects.Index.Entry.{Entry, keys, values, before, set-append, insert_for}
use cs564_projects.Index.Inner.{InnerNode, child_position, child_num, put_page, mark_end}

-- Every child has a page.
abbrev pub AllPages : List (Entry ℕ) → Type 0
AllPages [] = Unit
AllPages (e ∷ es) = (0 < e.value) × AllPages es

-- The node has the children in its first places, and its next place is marked as the end.
pub record Holds (occupancy : ℕ) (node : InnerNode) (first : ℕ) (es : List (Entry ℕ)) : Type 0 where
  pub room : length es ≤ occupancy
  pub first_page : 0 < first
  pub pages : AllPages es
  pub key_end : ℕ
  pub key_rest : List ℕ
  pub page_rest : List ℕ
  pub key_array : node.key_array ≡ keys es ++ (key_end ∷ key_rest)
  pub page_array : node.page_array ≡ first ∷ (values es ++ (0 ∷ page_rest))
  pub key_places : length es + length key_rest ≡ occupancy
  pub page_places : length es + length page_rest ≡ occupancy

pub AllPages-insert_for :
    (key : ℕ) (e : Entry ℕ) (es : List (Entry ℕ))
    → 0 < e.value
    → AllPages es
    → AllPages (insert_for key e es)
AllPages-insert_for key e [] l used = (l, tt)
AllPages-insert_for key e (x ∷ es) l used = elim (Bool-cases (ltb key x.key)) [
  | inl t ↦ rw t (l, used)
  | inr t ↦ rw t (used.0, AllPages-insert_for key e es l used.1)
]

child_num-append :
    (es : List (Entry ℕ)) (rest : List ℕ)
    → AllPages es
    → child_num (values es ++ (0 ∷ rest)) ≡ length es
unfolding child_num
child_num-append [] rest used = refl
child_num-append (x ∷ es) rest used =
    let t : (x.value == 0) ≡ false = ground (arith, used.0) in
    rw t (ap suc (child_num-append es rest used.1))

pub child_num-cons :
    (first : ℕ) (es : List (Entry ℕ)) (rest : List ℕ)
    → 0 < first
    → AllPages es
    → child_num (first ∷ (values es ++ (0 ∷ rest))) ≡ suc (length es)
unfolding child_num
child_num-cons first es rest l used =
    let t : (first == 0) ≡ false = ground arith in rw t (ap suc (child_num-append es rest used))

pub child_position-before :
    (key : ℕ) (es : List (Entry ℕ)) (k : ℕ) (ks rest : List ℕ)
    → AllPages es
    → child_position key (keys es ++ (k ∷ ks)) (values es ++ (0 ∷ rest)) ≡ length (before key es)
unfolding child_position
child_position-before key [] k ks rest used = ground arith
child_position-before key (x ∷ es) k ks rest used =
    let t : (x.value == 0) ≡ false = ground (arith, used.0) in
    elim (Bool-cases (ltb key x.key)) [
      | inl l ↦ rw l
      | inr l ↦ rw (l, t) (ap suc (child_position-before key es k ks rest used.1))
    ]

pub put_page-cons :
    (occupancy pos n page first : ℕ) (tail : List ℕ)
    → put_page occupancy pos (suc n) page (first ∷ tail) ≡ first ∷ put_in occupancy pos n page tail
unfolding put_page put_in copy_array
put_page-cons occupancy pos n page first tail =
    let m : suc n - 1 - pos ≡ n - pos = omega arith in
    elim (Bool-cases (ltb pos occupancy)) [
      | inl t ↦ rw (t, m, write_all-cons first tail (suc pos) (take (n - pos) (drop pos tail)))
      | inr t ↦ rw t
    ]

-- The end is marked behind the children.
pub mark_end-Holds :
    (occupancy : ℕ) (node : InnerNode) (first : ℕ) (es : List (Entry ℕ)) (k : ℕ) (ks : List ℕ)
    (p : ℕ) (ps : List ℕ)
    → length es ≤ occupancy
    → 0 < first
    → AllPages es
    → node.key_array ≡ keys es ++ (k ∷ ks)
    → node.page_array ≡ first ∷ (values es ++ (p ∷ ps))
    → length es + length ks ≡ occupancy
    → length es + length ps ≡ occupancy
    → Holds occupancy (mark_end (length es) node) first es
unfolding mark_end
mark_end-Holds occupancy node first es k ks p ps room l used a b c d =
    let m : length (keys es) ≡ length es = length-map es (λ e. e.key) in
    let m' : length (values es) ≡ length es = length-map es (λ e. e.value) in
    record {
      room = room;
      first_page = l;
      pages = used;
      key_end = int_max;
      key_rest = ks;
      page_rest = ps;
      key_array =
          ap (λ xs. set xs (length es) int_max) a
          ∙ ap (λ i. set (keys es ++ (k ∷ ks)) i int_max) (sym m)
          ∙ set-append (keys es) k int_max ks;
      page_array =
          ap (λ xs. set xs (suc (length es)) 0) b
          ∙ ap (λ i. first ∷ set (values es ++ (p ∷ ps)) i 0) (sym m')
          ∙ ap (◌∷◌ first) (set-append (values es) p 0 ps);
      key_places = c;
      page_places = d;
    }

-- ===== src/Index/Tree/Leaves.antt =====
-- The insertion into a leaf of the tree, by BTreeIndex::insertUnderNode of p3/src/btree.cpp.
use cs564_projects.Prelude.{
  ℕ, zero, suc, ◌+◌, ◌/◌, ◌<◌, List, [], ◌∷◌, ◌++◌, Option, none, some, length, ◌≡◌, ◌≢◌, refl, ap,
  sym, ◌∙◌, ltb, arith, Bool-cases, inl, inr, get_or, take, drop, take-append-drop, length-drop,
}
use mathlib.Core.Path.{subst}
use cs564_projects.Index.Entry.{Entry, ordered_insert, length-insert_for}
use cs564_projects.Index.Entry.Order.{InOrder, ordered_insert-InOrder}
use cs564_projects.Index.Kids.{append_nil}
use cs564_projects.Index.Leaf.{RecordId, LeafNode, new_child}
use cs564_projects.Index.Leaf
use cs564_projects.Index.Leaf.Entries.{Holds}
use cs564_projects.Index.Leaf.Insert.{insert_entry-Holds}
use cs564_projects.Index.Leaf.Split.{insert_entry_split}
use cs564_projects.Index.Store.{
  Content, as_leaf, Layout, Store, at, read_page, un_pin_page, alloc_page, write,
}
use cs564_projects.Index.Insertion.{insert_in_leaf}
use cs564_projects.Index.Tree.{Tree, Inserted, Ready, Fits, root-counted}

-- A page pinned, written and no longer pinned.
abbrev pub rewritten : ℕ → Content → Store → Store
rewritten p node s = un_pin_page p (write p node (read_page p s))

-- The same, with a second, new page.
abbrev pub rewritten_two : ℕ → Content → Content → Store → Store
rewritten_two p node new s =
    let q = s.next_page in
    un_pin_page p (un_pin_page q (write q new (write p node (alloc_page (read_page p s)))))

pub rewritten-page :
    (p r : ℕ) (node : Content) (s : Store) → (rewritten p node s).page r ≡ at s.page p node r
unfolding read_page un_pin_page write
rewritten-page p r node s = refl

pub rewritten-pins : (p r : ℕ) (node : Content) (s : Store) → (rewritten p node s).pins r ≡ s.pins r
unfolding read_page un_pin_page write
rewritten-pins p r node s = ground arith

pub rewritten-next :
    (p : ℕ) (node : Content) (s : Store) → (rewritten p node s).next_page ≡ s.next_page
unfolding read_page un_pin_page write
rewritten-next p node s = refl

pub rewritten_two-page :
    (p r : ℕ) (node new : Content) (s : Store)
    → (rewritten_two p node new s).page r ≡ at (at s.page p node) s.next_page new r
unfolding read_page un_pin_page write alloc_page
rewritten_two-page p r node new s = refl

pub rewritten_two-pins :
    (p r : ℕ) (node new : Content) (s : Store)
    → p ≢ s.next_page
    → (rewritten_two p node new s).pins r ≡ s.pins r
unfolding read_page un_pin_page write alloc_page
rewritten_two-pins p r node new s ne = ground arith

pub rewritten_two-next :
    (p : ℕ) (node new : Content) (s : Store)
    → (rewritten_two p node new s).next_page ≡ s.next_page + 1
unfolding read_page un_pin_page write alloc_page
rewritten_two-next p node new s = refl

-- The first entry of a leaf, and its key in the array.
first_of :
    {occupancy : ℕ} {es : List (Entry RecordId)} (leaf : LeafNode)
    → Holds occupancy leaf es
    → 0 < length es
    → (m : Entry RecordId) × (rest : List (Entry RecordId)) × (es ≡ m ∷ rest)
      × (get_or leaf.key_array 0 0 ≡ m.key)
first_of {es = []} leaf holds l = absurd (omega arith)
first_of {es = e ∷ es} leaf holds l = (e, es, refl, ap (λ xs. get_or xs 0 0) holds.key_array)

-- Both halves of a list in order, around the first key of the second.
halves :
    (lo hi n : ℕ) (es : List (Entry RecordId)) (m : Entry RecordId) (rest : List (Entry RecordId))
    → drop n es ≡ m ∷ rest
    → InOrder lo hi es
    → InOrder lo m.key (take n es) × InOrder m.key hi (drop n es)
halves lo hi zero es m rest e o =
    let o' = subst (InOrder lo hi) e o in
    (o'.0, subst (InOrder m.key hi) (sym e) (omega arith, o'.1))
halves lo hi (suc n) [] m rest e o = absurd (cc)
halves lo hi (suc n) (x ∷ es) m rest e o =
    let both = halves x.key hi n es m rest e o.1 in ((o.0, both.0), both.1)

module _ (layout : Layout) (e : Entry RecordId) (s : Store) (t : Tree zero) (leaf : LeafNode) where
  abbrev result : LeafNode × Option LeafNode
  result = Leaf.insert_entry layout.leaf_occupancy s.next_page layout.new_leaf e.key e.value leaf

  one_leaf :
      result.1 ≡ none
      → insert_in_leaf layout e.key e.value t.0 leaf (read_page t.0 s)
        ≡ (rewritten t.0 (as_leaf result.0) s, (0, e.key))
  unfolding insert_in_leaf new_child read_page
  one_leaf none_new = rw none_new

  two_leaves :
      (right : LeafNode)
      → result.1 ≡ some right
      → insert_in_leaf layout e.key e.value t.0 leaf (read_page t.0 s) ≡ (
        rewritten_two t.0 (as_leaf result.0) (as_leaf right) s,
        (s.next_page, get_or right.key_array 0 0),
      )
  unfolding insert_in_leaf new_child read_page
  two_leaves right some_new = rw some_new

  -- The leaf has room.
  pub into_leaf :
      Ready zero s t
      → Holds layout.leaf_occupancy leaf t.1
      → 0 < e.value.page_number
      → length t.1 < layout.leaf_occupancy
      → (let r = insert_in_leaf layout e.key e.value t.0 leaf (read_page t.0 s) in
          Inserted layout zero e s t r.0 r.1)
  into_leaf ready holds p l =
      let (none_new, held) =
        insert_entry-Holds layout.leaf_occupancy leaf t.1 holds e s.next_page layout.new_leaf p l in
      let s' = rewritten t.0 (as_leaf result.0) s in
      let written : s'.page t.0 ≡ as_leaf result.0 =
        rewritten-page t.0 t.0 (as_leaf result.0) s ∙ ground arith in
      rw (one_leaf none_new) (record {
        new = (t.0, ordered_insert e t.1);
        more = [];
        same_root = refl;
        stored = (result.0, written, held);
        all_stored = tt;
        told = inl (refl, refl);
        inserted = append_nil (ordered_insert e t.1);
        searched = λ lo hi a b o. ordered_insert-InOrder lo hi e t.1 a b o;
        counted = λ r. omega arith;
        next = omega (arith, rewritten-next t.0 (as_leaf result.0) s);
        kept = λ r c l'. rewritten-page t.0 r (as_leaf result.0) s ∙ ground arith;
        pins = λ r. rewritten-pins t.0 r (as_leaf result.0) s;
      })

  apart : Ready zero s t → t.0 < s.next_page
  apart ready =
      let one = root-counted zero t in
      elim (Bool-cases (ltb t.0 s.next_page)) [
        | inl l ↦ ground arith
        | inr l ↦ let none = ready.below t.0 (ground arith) in absurd (omega arith)
      ]

  -- The leaf is full, and is split.
  pub into_two_leaves :
      Ready zero s t
      → Fits layout
      → Holds layout.leaf_occupancy leaf t.1
      → 0 < e.value.page_number
      → length t.1 ≡ layout.leaf_occupancy
      → (let r = insert_in_leaf layout e.key e.value t.0 leaf (read_page t.0 s) in
          Inserted layout zero e s t r.0 r.1)
  into_two_leaves ready fits holds p full =
      let q = s.next_page in
      let l = apart ready in
      let all = ordered_insert e t.1 in
      let lower = layout.leaf_occupancy / 2 + 1 in
      let (left_held, (right, some_new, right_held)) =
        insert_entry_split layout.leaf_occupancy leaf t.1 holds e q layout.new_leaf full fits.leaves
          p fits.leaf_keys fits.leaf_rids in
      let left = as_leaf result.0 in
      let s' = rewritten_two t.0 left (as_leaf right) s in
      let written : s'.page t.0 ≡ left =
        rewritten_two-page t.0 t.0 left (as_leaf right) s ∙ ground arith in
      let new_written : s'.page q ≡ as_leaf right =
        rewritten_two-page t.0 q left (as_leaf right) s ∙ ground arith in
      let next : s'.next_page ≡ q + 1 = rewritten_two-next t.0 left (as_leaf right) s in
      let (m, rest, cut, least) =
        first_of right right_held
          (omega (arith, length-drop lower all, length-insert_for e.key e t.1)) in
      rw (two_leaves right some_new) (record {
        new = (t.0, take lower all);
        more = record { key = m.key; value = (q, drop lower all) } ∷ [];
        same_root = refl;
        stored = (result.0, written, left_held);
        all_stored = ((right, new_written, right_held), tt);
        told = inr (
          record { key = m.key; value = (q, drop lower all) },
          refl,
          ready.positive,
          refl,
          sym least,
        );
        inserted =
            ap (λ xs. take lower all ++ xs) (append_nil (drop lower all))
            ∙ take-append-drop lower all;
        searched = λ lo hi a b o.
            halves lo hi lower all m rest cut (ordered_insert-InOrder lo hi e t.1 a b o);
        counted = λ r. ground (arith, next);
        next = omega (arith, next);
        kept = λ r c l'. rewritten_two-page t.0 r left (as_leaf right) s ∙ ground arith;
        pins = λ r. rewritten_two-pins t.0 r left (as_leaf right) s (omega arith);
      })

-- ===== src/Index/Tree/Root.antt =====
-- BTreeIndex::insertEntry of p3/src/btree.cpp: the header page, the root and a new root.
use cs564_projects.Prelude.{
  ℕ, suc, ◌+◌, ◌-◌, ◌≤◌, ◌<◌, true, false, [], ◌∷◌, ◌++◌, map, some, ◌==◌, if◌then◌else◌, ◌≡◌, ◌≢◌,
  refl, ap, sym, ◌∙◌, arith, inl, inr,
}
use mathlib.Core.Path.{subst}
use cs564_projects.Index.Array.{int_max}
use cs564_projects.Index.Entry.{Entry, ordered_insert}
use cs564_projects.Index.Kids.{joined, summed, AllKids, Ranged, append_nil, paged}
use cs564_projects.Index.Leaf.{RecordId}
use cs564_projects.Index.Inner.{InnerNode}
use cs564_projects.Index.Inner.Children
use cs564_projects.Index.Store.{
  MetaInfo, as_inner, as_meta, Layout, Store, read_page, un_pin_page, alloc_page, write, at,
  at_other,
}
use cs564_projects.Index.Insertion.{Index, insert_entry, insert_under_node, after_root, new_root}
use cs564_projects.Index.Tree.{
  Tree, root, is_leaf, entries, count, IsSearch, Stored, Stored-frame, Inserted, Ready, Fits,
}
use cs564_projects.Index.Tree.Nodes.{once_at, pins_back}
use cs564_projects.Index.Tree.Grow.{grow}
use cs564_projects.Index.Tree.Top.{
  height_leaf, new_root-Holds, fresh_once, fresh_below, fresh_old, new_pins, top_count, top_once,
}

-- The pages of the index hold the tree: the header page, which is none of the tree's, tells its root and
-- its height, its pages are different ones and were given out, and its keys are in order.
pub record IsIndex (layout : Layout) (n : ℕ) (ix : Index) (t : Tree n) : Type 0 where
  pub header :
      ix.store.page ix.header_page_num
      ≡ as_meta (record { root_page_no = ix.root_page_num; height = suc n })
  pub rooted : root n t ≡ ix.root_page_num
  pub root_positive : 0 < ix.root_page_num
  pub stored : Stored layout n ix.store t
  pub apart : count n ix.header_page_num t ≡ 0
  pub header_below : ix.header_page_num < ix.store.next_page
  pub ready : Ready n ix.store t
  pub ordered : IsSearch n 0 int_max t

-- An insertion done: the new state holds a tree with the entry put in, and no page is left pinned.
pub record Done (layout : Layout) (n : ℕ) (e : Entry RecordId) (ix : Index) (t : Tree n)
    (ix' : Index) : Type 0 where
  pub height : ℕ
  pub tree : Tree height
  pub index : IsIndex layout height ix' tree
  pub inserted : entries height tree ≡ ordered_insert e (entries n t)
  pub same_header : ix'.header_page_num ≡ ix.header_page_num
  pub pins : (r : ℕ) → ix'.store.pins r ≡ ix.store.pins r

module _ (layout : Layout) (fits : Fits layout) (n : ℕ) (e : Entry RecordId) (ix : Index)
    (t : Tree n) (is_index : IsIndex layout n ix t) (in_range : e.key ≤ int_max) where
  abbrev header : ℕ
  header = ix.header_page_num

  abbrev meta : MetaInfo
  meta = record { root_page_no = ix.root_page_num; height = suc n }

  abbrev pinned : Store
  pinned = read_page header ix.store

  pinned-Ready : Ready n pinned t
  unfolding read_page
  pinned-Ready = record {
    once = is_index.ready.once;
    below = is_index.ready.below;
    positive = is_index.ready.positive;
  }

  pinned-Stored : Stored layout n pinned t
  unfolding read_page
  pinned-Stored = Stored-frame layout n ix.store pinned t (λ r l. refl) is_index.stored

  module _ (s : Store) (child : ℕ × ℕ) (i : Inserted layout n e pinned t s child) where
    abbrev total : ℕ → ℕ
    total r = count n r i.new + summed (count n r) i.more

    total_once : (r : ℕ) → total r ≤ 1
    unfolding read_page
    total_once r =
        fresh_once (total r) (count n r t) r ix.store.next_page s.next_page (i.counted r)
          (is_index.ready.once r) (is_index.ready.below r)

    total_below : (r : ℕ) → s.next_page ≤ r → total r ≡ 0
    unfolding read_page
    total_below r l =
        fresh_below (total r) (count n r t) r ix.store.next_page s.next_page (i.counted r) i.next l
          (is_index.ready.below r)

    total_header : total header ≡ 0
    unfolding read_page
    total_header =
        fresh_old (total header) (count n header t) header ix.store.next_page s.next_page
          (i.counted header) is_index.header_below is_index.apart

    next_kept : ix.store.next_page ≤ s.next_page
    unfolding read_page
    next_kept = i.next

    header_kept : s.page header ≡ as_meta meta
    unfolding read_page
    header_kept = i.kept header is_index.apart is_index.header_below ∙ is_index.header

    searched : Ranged (λ a b v. IsSearch n a b v) 0 int_max i.new i.more
    searched = i.searched 0 int_max (omega arith) in_range is_index.ordered

    -- The root was not split.
    same_height :
        i.more ≡ [] → child.0 ≡ 0 → Done layout n e ix t (after_root layout meta ix (s, child))
    unfolding after_root un_pin_page read_page
    same_height no_more zero_page =
        let tested : (child.0 == 0) ≡ true = ground arith in
        let same : (r : ℕ) → total r ≡ count n r i.new =
          λ r. ap (λ m. count n r i.new + summed (count n r) m) no_more ∙ omega arith in
        rw tested (record {
          height = n;
          tree = i.new;
          index = record {
            header = header_kept;
            rooted = i.same_root ∙ is_index.rooted;
            root_positive = is_index.root_positive;
            stored = Stored-frame layout n s (un_pin_page header s) i.new (λ r l. refl) i.stored;
            apart = omega (arith, total_header);
            header_below = omega (arith, next_kept, is_index.header_below);
            ready = record {
              once = λ r. omega (arith, total_once r);
              below = λ r l. omega (arith, total_below r l);
              positive = omega (arith, next_kept, is_index.ready.positive);
            };
            ordered = subst (Ranged (λ a b v. IsSearch n a b v) 0 int_max i.new) no_more searched;
          };
          inserted =
              sym (append_nil (entries n i.new))
              ∙ ap (λ m. entries n i.new ++ joined (entries n) m) (sym no_more)
              ∙ i.inserted;
          same_header = refl;
          pins = λ r. pins_back ix.store.pins s.pins header r (i.pins r) (i.pins header);
        })

    module _ (k : Entry (Tree n)) (one : i.more ≡ k ∷ []) (positive : 0 < child.0)
        (page : root n k.value ≡ child.0) (key : k.key ≡ child.1) where
      abbrev raised : Index
      raised = after_root layout meta ix (s, child)

      abbrev top : InnerNode
      top = new_root layout ix.root_page_num (suc n == 1) child

      sum_one : (r : ℕ) → total r ≡ count n r i.new + count n r k.value
      sum_one r = ap (λ m. count n r i.new + summed (count n r) m) one ∙ omega arith

      header_new : header ≢ s.next_page
      header_new = λ x. absurd (omega (arith, x, next_kept, is_index.header_below))

      raised-page :
          (r : ℕ)
          → raised.store.page r
            ≡ at
                (at s.page s.next_page (as_inner top))
                header
                (as_meta (record { root_page_no = s.next_page; height = suc n + 1 }))
                r
      unfolding after_root un_pin_page write alloc_page
      raised-page r = let tested : (child.0 == 0) ≡ false = ground arith in rw tested

      raised-pins : (r : ℕ) → raised.store.pins r ≡ at s.pins header (s.pins header - 1) r
      unfolding after_root un_pin_page write alloc_page
      raised-pins r =
          let tested : (child.0 == 0) ≡ false = ground arith in
          let other = header_new in rw tested (new_pins s.pins header s.next_page r other)

      raised-rest :
          (raised.store.next_page ≡ s.next_page + 1)
          × (raised.root_page_num ≡ s.next_page)
          × (raised.header_page_num ≡ header)
      unfolding after_root un_pin_page write alloc_page
      raised-rest =
          let tested : (child.0 == 0) ≡ false = ground arith in rw tested (refl, refl, refl)

      raised_frame :
          (v : Tree n)
          → ((r : ℕ) → count n r v ≤ total r)
          → Stored layout n s v
          → Stored layout n raised.store v
      raised_frame v l st =
          Stored-frame layout n s raised.store v
            (λ r c.
              raised-page r
              ∙ at_other (at s.page s.next_page (as_inner top)) header r _
                  (λ x. absurd (omega (arith, c, l r, ap total x, total_header)))
              ∙ at_other s.page s.next_page r (as_inner top) (λ x.
                absurd (omega (arith, c, l r, ap total x, total_below s.next_page (omega arith)))))
            st

      top-Holds :
          Children.Holds layout.node_occupancy top (root n i.new) (map (paged (root n)) (k ∷ []))
      top-Holds =
          let old = i.same_root ∙ is_index.rooted in
          let entry : paged (root n) k ≡ record { key = child.1; value = child.0 } =
            λ j. record { key = key j; value = page j } in
          subst (λ x. Children.Holds layout.node_occupancy top x (map (paged (root n)) (k ∷ [])))
            (sym old)
            (subst (λ x. Children.Holds layout.node_occupancy top ix.root_page_num (x ∷ []))
              (sym entry)
              (new_root-Holds layout ix.root_page_num child.0 child.1 (suc n == 1) fits
                is_index.root_positive positive))

      top_level : top.level ≡ (if is_leaf n then 1 else 0)
      unfolding new_root
      top_level = ap (λ b. if b then 1 else 0) (height_leaf n)

      -- The root was split.
      new_height : Done layout n e ix t raised
      unfolding read_page
      new_height =
          let q = s.next_page in
          let (next, root_at, header_at) = raised-rest in
          let held_k : AllKids (λ v. Stored layout n s v) (k ∷ []) =
            subst (AllKids (λ v. Stored layout n s v)) one i.all_stored in
          let here : raised.store.page q ≡ as_inner top =
            raised-page q
            ∙ at_other (at s.page q (as_inner top)) header q _ header_new
            ∙ rw (once_at q) in
          let header_page : raised.store.page header
              ≡ as_meta (record { root_page_no = q; height = suc n + 1 }) =
            raised-page header ∙ rw (once_at header) in
          let root_back : q ≡ raised.root_page_num = sym root_at in
          let grown : suc n + 1 ≡ suc (suc n) = omega arith in
          let counted_q : (r : ℕ) → s.next_page ≡ r → total r ≡ 0 =
            λ r x. total_below r (omega (arith, x)) in
          record {
            height = suc n;
            tree = (q, i.new, k ∷ []);
            index = record {
              header =
                  ap raised.store.page header_at
                  ∙ header_page
                  ∙ (λ j. as_meta (record { root_page_no = root_back j; height = grown j }));
              rooted = sym root_at;
              root_positive = omega (arith, root_at, next_kept, is_index.ready.positive);
              stored = (
                (top, here, top_level, top-Holds),
                raised_frame i.new (λ r. omega arith) i.stored,
                (raised_frame k.value (λ r. omega (arith, sum_one r)) held_k.0, tt),
              );
              apart =
                  ap (λ h. count (suc n) h (q, i.new, k ∷ [])) header_at
                  ∙ top_count q header (count n header i.new) (count n header k.value)
                      (λ x. header_new (sym x)) (omega (arith, sum_one header, total_header));
              header_below = omega (arith, header_at, next, next_kept, is_index.header_below);
              ready = record {
                once = λ r.
                    top_once q r (count n r i.new) (count n r k.value)
                      (omega (arith, sum_one r, total_once r))
                      (λ x. omega (arith, sum_one r, counted_q r x));
                below = λ r l.
                    top_count q r (count n r i.new) (count n r k.value)
                      (λ x. absurd (omega (arith, next, l, x)))
                      (omega (arith, sum_one r, total_below r (omega (arith, next, l))));
                positive = omega (arith, next);
              };
              ordered = subst (Ranged (λ a b v. IsSearch n a b v) 0 int_max i.new) one searched;
            };
            inserted = ap (λ m. entries n i.new ++ joined (entries n) m) (sym one) ∙ i.inserted;
            same_header = header_at;
            pins = λ r.
                raised-pins r ∙ pins_back ix.store.pins s.pins header r (i.pins r) (i.pins header);
          }

  entered :
      (x : Store × (ℕ × ℕ))
      → insert_under_node layout (suc n) e.key e.value ix.root_page_num (suc n == 1) pinned ≡ some x
      → insert_entry layout e.key e.value ix ≡ some (after_root layout meta ix x)
  unfolding insert_entry
  entered x ran = rw (is_index.header, insert_entry) (rw ran)

  -- Where the pages of an index, of whatever height, hold a tree with its keys in order, the page numbers of
  -- the tree being different ones that were given out, and the key is at most INT_MAX and the record's page
  -- number not 0, insertEntry ends and leaves the pages of a tree with its keys in order whose entries are
  -- those of the old tree with the new one put in behind those with keys not greater. The header page tells
  -- its root and its height, and every page is as often pinned as before.
  pub insert_entry-IsIndex :
      0 < e.value.page_number
      → (ix' : Index) × (insert_entry layout e.key e.value ix ≡ some ix') × Done layout n e ix t ix'
  insert_entry-IsIndex rid =
      let (s, child, ran, i) =
        grow layout fits e rid n 0 int_max pinned t is_index.ordered pinned-Ready pinned-Stored in
      let there : insert_under_node layout (suc n) e.key e.value ix.root_page_num (suc n == 1)
            pinned
          ≡ some (s, child) =
        ap (λ p. insert_under_node layout (suc n) e.key e.value p (suc n == 1) pinned)
          (sym is_index.rooted)
        ∙ ap (λ b. insert_under_node layout (suc n) e.key e.value (root n t) b pinned)
            (height_leaf n)
        ∙ ran in
      (
        after_root layout meta ix (s, child),
        entered (s, child) there,
        elim i.told [
          | inl (nothing, zero_page) ↦ same_height s child i nothing zero_page
          | inr (k, one, positive, page, key) ↦ new_height s child i k one positive page key
        ],
      )

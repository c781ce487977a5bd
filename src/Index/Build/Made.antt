-- ===== src/Index/Build/Made.antt =====
-- An index made by the constructor of p3/src/btree.cpp, and opened again.
use cs564_projects.Prelude.{
  ℕ, suc, ◌+◌, ◌-◌, ◌≤◌, ◌<◌, List, [], ◌∷◌, some, ◌==◌, if◌then◌else◌, length, ◌≡◌, refl, ap, ◌∙◌,
  arith, get_or, set,
}
use mathlib.Core.Option
use cs564_projects.Index.Array.{int_max}
use cs564_projects.Index.Entry.{Entry, ordered_insert, nonempty}
use cs564_projects.Index.Leaf.{RecordId, LeafNode}
use cs564_projects.Index.Leaf
use cs564_projects.Index.Leaf.Entries.{Holds}
use cs564_projects.Index.Store.{
  as_meta, Layout, Store, read_page, un_pin_page, alloc_page, write, at,
}
use cs564_projects.Index.Insertion.{Index, insert_entry}
use cs564_projects.Index.Tree.{Tree, entries, Stored-frame, Fits}
use cs564_projects.Index.Tree.Root.{IsIndex, insert_entry-IsIndex}
use cs564_projects.Index.Build.{
  open_index, first_root, empty_index, insert_all, unpin_first, make_index,
}

one_less :
    (g f : ℕ → ℕ) (p : ℕ)
    → ((x : ℕ) → g x ≡ f x + (if p == x then 1 else 0))
    → (x : ℕ) → at g p (g p - 1) x ≡ f x
one_less g f p pinned x = let here = pinned x in let there = pinned p in ground arith

opened_run :
    (ix : Index) (n : ℕ)
    → ix.store.page ix.header_page_num
      ≡ as_meta (record { root_page_no = ix.root_page_num; height = suc n })
    → open_index ix.header_page_num ix.store
      ≡ some (record ix {
        store = un_pin_page ix.header_page_num (read_page ix.header_page_num ix.store);
      })
unfolding open_index
opened_run ix n there = rw (there, open_index)

-- Other pins make no other index.
repinned :
    (layout : Layout) (n : ℕ) (ix : Index) (t : Tree n) (pins : ℕ → ℕ)
    → IsIndex layout n ix t
    → IsIndex layout n (record ix { store = record ix.store { pins = pins } }) t
repinned layout n ix t pins is_index = record {
  header = is_index.header;
  rooted = is_index.rooted;
  root_positive = is_index.root_positive;
  stored =
      Stored-frame layout n ix.store (record ix.store { pins = pins }) t (λ r l. refl)
        is_index.stored;
  apart = is_index.apart;
  header_below = is_index.header_below;
  ready = record {
    once = is_index.ready.once;
    below = is_index.ready.below;
    positive = is_index.ready.positive;
  };
  ordered = is_index.ordered;
}

-- The keys are in the range of `int`, and the records have pages.
abbrev pub Records : List (Entry RecordId) → Type 0
Records [] = Unit
Records (e ∷ es) = (e.key ≤ int_max) × (0 < e.value.page_number) × Records es

-- The entries put in one by one.
abbrev pub insert_each : List (Entry RecordId) → List (Entry RecordId) → List (Entry RecordId)
insert_each [] es = es
insert_each (x ∷ xs) es = insert_each xs (ordered_insert x es)

-- An index that holds the entries, with pins as in `pins`.
pub record Made (layout : Layout) (pins : ℕ → ℕ) (es : List (Entry RecordId)) (ix : Index)
    : Type 0 where
  pub height : ℕ
  pub tree : Tree height
  pub index : IsIndex layout height ix tree
  pub held : entries height tree ≡ es
  pub same_pins : (r : ℕ) → ix.store.pins r ≡ pins r

module _ (layout : Layout) (fits : Fits layout) where
  insert_all-cons :
      (e : Entry RecordId) (es : List (Entry RecordId)) (ix ix' : Index)
      → insert_entry layout e.key e.value ix ≡ some ix'
      → insert_all layout (e ∷ es) ix ≡ insert_all layout es ix'
  unfolding insert_all
  insert_all-cons e es ix ix' run = rw (run, insert_all)

  insert_all-Made :
      (xs es : List (Entry RecordId)) (ix : Index) (pins : ℕ → ℕ)
      → Records xs
      → Made layout pins es ix
      → (ix' : Index) × (insert_all layout xs ix ≡ some ix')
        × (ix'.header_page_num ≡ ix.header_page_num)
        × Made layout pins (insert_each xs es) ix'
  unfolding insert_all
  insert_all-Made [] es ix pins records made = (ix, refl, refl, made)
  insert_all-Made (x ∷ xs) es ix pins (range, page, records) made =
      let (ix₁, run, done) =
        insert_entry-IsIndex layout fits made.height x ix made.tree made.index range page in
      let made₁ : Made layout pins (ordered_insert x es) ix₁ = record {
        height = done.height;
        tree = done.tree;
        index = done.index;
        held = done.inserted ∙ ap (ordered_insert x) made.held;
        same_pins = λ r. done.pins r ∙ made.same_pins r;
      } in
      let (ix₂, all, header, made₂) =
        insert_all-Made xs (ordered_insert x es) ix₁ pins records made₁ in
      (ix₂, insert_all-cons x xs ix ix₁ run ∙ all, header ∙ done.same_header, made₂)

  first_root-Holds : Holds layout.leaf_occupancy (first_root layout) []
  unfolding first_root Leaf.mark_end
  first_root-Holds =
      let (k, ks, e₁) = nonempty layout.new_leaf.key_array (omega (arith, fits.leaf_keys)) in
      let (z, zs, e₂) = nonempty layout.new_leaf.rid_array (omega (arith, fits.leaf_rids)) in
      let n₁ : length layout.new_leaf.key_array ≡ suc (length ks) = ap length e₁ in
      let n₂ : length layout.new_leaf.rid_array ≡ suc (length zs) = ap length e₂ in
      record {
        room = omega arith;
        used = tt;
        key_end = int_max;
        key_rest = ks;
        rid_end = record { page_number = 0; slot_number = z.slot_number };
        rid_rest = zs;
        key_array = ap (λ xs. set xs 0 int_max) e₁;
        rid_array =
            ap
              (λ xs.
                set xs 0
                  (record { page_number = 0; slot_number = (get_or xs 0 Leaf.no_rid).slot_number }))
              e₂;
        ends = refl;
        key_places = omega (arith, n₁, fits.leaf_keys);
        rid_places = omega (arith, n₂, fits.leaf_rids);
      }

  -- The pins of the two pages that the constructor holds.
  abbrev held_pins : Store → ℕ → ℕ
  held_pins s r =
      s.pins r + (if s.next_page == r then 1 else 0) + (if s.next_page + 1 == r then 1 else 0)

  empty_index-Made :
      (s : Store) → 0 < s.next_page → Made layout (held_pins s) [] (empty_index layout s)
  unfolding empty_index alloc_page write
  empty_index-Made s positive = record {
    height = 0;
    tree = (s.next_page + 1, []);
    index = record {
      header = ground arith;
      rooted = refl;
      root_positive = omega arith;
      stored = (first_root layout, ground arith, first_root-Holds);
      apart = ground arith;
      header_below = omega arith;
      ready = record {
        once = λ r. ground arith;
        below = λ r l. ground arith;
        positive = omega arith;
      };
      ordered = omega arith;
    };
    held = refl;
    same_pins = λ r. ground arith;
  }

  unpin_first-Made :
      (s : Store) (es : List (Entry RecordId)) (ix : Index)
      → Made layout (held_pins s) es ix
      → Made layout s.pins es (unpin_first s.next_page (s.next_page + 1) ix)
  unfolding unpin_first un_pin_page
  unpin_first-Made s es ix made = record {
    height = made.height;
    tree = made.tree;
    index = repinned layout made.height ix made.tree _ made.index;
    held = made.held;
    same_pins = λ r.
        let header = s.next_page in
        let root = s.next_page + 1 in
        let kept : ℕ → ℕ = λ x. s.pins x + (if root == x then 1 else 0) in
        let once : (x : ℕ) → at ix.store.pins header (ix.store.pins header - 1) x ≡ kept x =
          λ x. one_less ix.store.pins kept header (λ y. omega (arith, made.same_pins y)) x in
        one_less (at ix.store.pins header (ix.store.pins header - 1)) s.pins root once r;
  }

  -- For records with pages and keys in the range of `int`, the constructor makes, of a file that is not
  -- there, an index whose tree has its keys in order and holds the records' entries, each put in behind
  -- those with keys not greater, and leaves no page pinned more often than before.
  pub make_index-Made :
      (es : List (Entry RecordId)) (s : Store)
      → Records es
      → 0 < s.next_page
      → (ix : Index) × (make_index layout es s ≡ some ix)
        × Made layout s.pins (insert_each es []) ix
  unfolding make_index empty_index alloc_page write
  make_index-Made es s records positive =
      let (ix, all, header, made) =
        insert_all-Made es [] (empty_index layout s) (held_pins s) records
          (empty_index-Made s positive) in
      (
        unpin_first s.next_page (s.next_page + 1) ix,
        ap (Option.map (unpin_first s.next_page (s.next_page + 1))) all,
        unpin_first-Made s (insert_each es []) ix made,
      )

-- When an index that holds entries is opened by its header page, it holds them as before, and no page is
-- left pinned by it.
pub open_index-Made :
    (layout : Layout) (pins : ℕ → ℕ) (es : List (Entry RecordId)) (ix : Index)
    → Made layout pins es ix
    → (ix' : Index) × (open_index ix.header_page_num ix.store ≡ some ix')
      × (ix'.root_page_num ≡ ix.root_page_num)
      × Made layout pins es ix'
unfolding open_index read_page un_pin_page
open_index-Made layout pins es ix made =
    let opened : Index = record ix {
      store = un_pin_page ix.header_page_num (read_page ix.header_page_num ix.store);
    } in
    (
      opened,
      opened_run ix made.height made.index.header,
      refl,
      record {
        height = made.height;
        tree = made.tree;
        index = repinned layout made.height ix made.tree _ made.index;
        held = made.held;
        same_pins = λ r. let here = made.same_pins r in ground arith;
      },
    )

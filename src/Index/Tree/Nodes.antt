-- ===== src/Index/Tree/Nodes.antt =====
-- BTreeIndex::insertUnderNode of p3/src/btree.cpp at an inner node that is not split.
use cs564_projects.Prelude.{
  ℕ, suc, ◌+◌, ◌-◌, ◌<◌, true, false, List, [], ◌∷◌, map, some, none, ◌==◌, if◌then◌else◌, length,
  ◌≡◌, ◌≢◌, refl, ap, sym, ◌∙◌, ltb, ◌&&◌, not, arith, inl, drop, length-map,
}
use mathlib.Core.Path.{subst}
use cs564_projects.Index.Entry.{Entry, before, insert_for}
use cs564_projects.Index.Kids.{summed, replace, paged, append_nil}
use cs564_projects.Index.Kids.Keep.{replace-none, replace-one}
use cs564_projects.Index.Leaf.{RecordId}
use cs564_projects.Index.Inner.{InnerNode, child_position, insert_child}
use cs564_projects.Index.Inner.Children
use cs564_projects.Index.Inner.Insert.{find_child, insert_child-Holds}
use cs564_projects.Index.Inner.Level.{insert_child-level}
use cs564_projects.Index.Store.{
  as_inner, Layout, Store, read_page, un_pin_page, write, at, at_other,
}
use cs564_projects.Index.Insertion.{after_child, insert_in_node}
use cs564_projects.Index.Tree.{Tree, root, entries, count, Inserted, fresh}
use cs564_projects.Index.Tree.Under

pub once_at : (p : ℕ) → (p == p) ≡ true
once_at p = ground arith

pub not_here : (p r c : ℕ) → (if p == r then 1 else 0) + c ≡ 0 → p ≢ r
not_here p r c zero_sum = λ x. let t : (p == r) ≡ true = ground arith in absurd (ground arith)

-- A page that was pinned and is unpinned.
pub pins_back :
    (f g : ℕ → ℕ) (p r : ℕ)
    → g r ≡ at f p (f p + 1) r
    → g p ≡ at f p (f p + 1) p
    → at g p (g p - 1) r ≡ f r
pins_back f g p r a b = ground arith

node_room :
    (layout : Layout) (key pos c least p : ℕ) (node : InnerNode) (s : Store)
    → (insert_child layout.node_occupancy layout.new_inner pos least c node).1 ≡ none
    → insert_in_node layout key pos (c, least) p node s ≡ (
      un_pin_page p (
          write p
            (as_inner (insert_child layout.node_occupancy layout.new_inner pos least c node).0)
            s),
      (0, key),
    )
unfolding insert_in_node
node_room layout key pos c least p node s no_new = rw (no_new, insert_in_node)

module _ (layout : Layout) (n : ℕ) (e : Entry RecordId) (s : Store) (p : ℕ) (t : Tree n)
    (ks : List (Entry (Tree n))) (s₂ : Store) (child : ℕ × ℕ)
    (u : Under.Under layout n e s p t ks s₂ child) where
  abbrev pub node : InnerNode
  node = Under.node layout n e s p t ks s₂ child u

  abbrev pub changed : Tree n × List (Entry (Tree n))
  changed = Under.changed layout n e s p t ks s₂ child u

  -- The place of the child for the key, as the code finds it.
  abbrev pub pos : ℕ
  pos = child_position e.key node.key_array (drop 1 node.page_array)

  abbrev pub pages : List (Entry ℕ)
  pages = map (paged (root n)) ks

  pub find_pos : pos ≡ length (before e.key pages)
  find_pos = find_child layout.node_occupancy node (root n t) pages u.stored.0.3 e.key

  -- What is left after the node at `p` was written or left alone.
  module _ (s₃ : Store) (node' : InnerNode) where
    pub unsplit :
        s₃.next_page ≡ s₂.next_page
        → ((r : ℕ) → p ≢ r → s₃.page r ≡ s₂.page r)
        → s₃.page p ≡ as_inner node'
        → ((r : ℕ) → s₃.pins r ≡ s.pins r)
        → node'.level ≡ node.level
        → Children.Holds layout.node_occupancy node'
            (root n changed.0)
            (map (paged (root n)) changed.1)
        → (k : ℕ) → Inserted layout (suc n) e s (p, t, ks) s₃ (0, k)
    unsplit next same here pins level held k =
        let kids = Under.all_kids layout n e s p t ks s₂ child u s₃ (λ r other l. same r other) in
        record {
          new = (p, changed.0, changed.1);
          more = [];
          same_root = refl;
          stored = ((node', here, level ∙ u.stored.0.2, held), kids.0, kids.1);
          all_stored = tt;
          told = inl (refl, refl);
          inserted =
              append_nil (entries (suc n) (p, changed.0, changed.1))
              ∙ Under.all_inserted layout n e s p t ks s₂ child u;
          searched = λ lo hi l m o. Under.all_searched layout n e s p t ks s₂ child u lo hi l m o;
          counted = λ r.
              let sum = Under.all_counted layout n e s p t ks s₂ child u r in
              let f : fresh s s₃ r ≡ fresh s s₂ r =
                ap (λ i. if (not (ltb r s.next_page)) && ltb r i then 1 else 0) next in
              omega (arith, sum, f);
          next = omega (arith, next, Under.next_kept layout n e s p t ks s₂ child u);
          kept = λ r away l.
              same r (not_here p r (count n r t + summed (count n r) ks) away)
              ∙ Under.others_kept layout n e s p t ks s₂ child u r away l;
          pins = pins;
        }

  -- The child was not split.
  pub left_alone :
      u.below.more ≡ []
      → child.0 ≡ 0
      → (s₃ : Store) × (after_child layout e.key pos p (s₂, child) ≡ some (s₃, child))
        × Inserted layout (suc n) e s (p, t, ks) s₃ child
  unfolding after_child un_pin_page read_page
  left_alone no_more zero_page =
      let tested : (child.0 == 0) ≡ true = ground arith in
      let (a, b) = replace-none (root n) e.key u.below.new t ks u.below.same_root in
      let s₃ = un_pin_page p s₂ in
      let same_first : root n changed.0 ≡ root n t =
        ap (λ m. root n (replace e.key t ks u.below.new m).0) no_more ∙ a in
      let same_pages : map (paged (root n)) changed.1 ≡ pages =
        ap (λ m. map (paged (root n)) (replace e.key t ks u.below.new m).1) no_more ∙ b in
      let held =
        subst (λ i. Children.Holds layout.node_occupancy node i (map (paged (root n)) changed.1))
          (sym same_first)
          (subst (Children.Holds layout.node_occupancy node (root n t)) (sym same_pages)
            u.stored.0.3) in
      let back : (r : ℕ) → s₃.pins r ≡ s.pins r =
        λ r. pins_back s.pins s₂.pins p r (u.below.pins r) (u.below.pins p) in
      let left =
        unsplit s₃ node refl (λ r other. refl) (Under.node_kept layout n e s p t ks s₂ child u) back
          refl held child.1 in
      (
        s₃,
        rw tested,
        subst (λ i. Inserted layout (suc n) e s (p, t, ks) s₃ (i, child.1)) (sym zero_page) left,
      )

  -- The child was split, and the node has room.
  pub with_room :
      (k : Entry (Tree n))
      → u.below.more ≡ k ∷ []
      → 0 < child.0
      → root n k.value ≡ child.0
      → k.key ≡ child.1
      → length ks < layout.node_occupancy
      → (s₃ : Store) × (after_child layout e.key pos p (s₂, child) ≡ some (s₃, (0, e.key)))
        × Inserted layout (suc n) e s (p, t, ks) s₃ (0, e.key)
  unfolding after_child un_pin_page read_page write
  with_room k one positive page key room =
      let tested : (child.0 == 0) ≡ false = ground arith in
      let (a, b) = replace-one (root n) e.key u.below.new t ks k u.below.same_root in
      let entry : Entry ℕ = record { key = child.1; value = child.0 } in
      let told : paged (root n) k ≡ entry = λ i. record { key = key i; value = page i } in
      let (none_new, held) =
        insert_child-Holds layout.node_occupancy node (root n t) pages u.stored.0.3 e.key entry
          layout.new_inner positive (omega (arith, length-map ks (paged (root n)))) in
      let at_pos =
        λ (i : ℕ). insert_child layout.node_occupancy layout.new_inner i child.1 child.0 node in
      let none_new' : (at_pos pos).1 ≡ none = ap (λ i. (at_pos i).1) find_pos ∙ none_new in
      let node' = (at_pos pos).0 in
      let s₃ = un_pin_page p (write p (as_inner node') s₂) in
      let same_first : root n changed.0 ≡ root n t =
        ap (λ m. root n (replace e.key t ks u.below.new m).0) one ∙ a in
      let same_pages : map (paged (root n)) changed.1 ≡ insert_for e.key entry pages =
        ap (λ m. map (paged (root n)) (replace e.key t ks u.below.new m).1) one
        ∙ b
        ∙ ap (λ x. insert_for e.key x pages) told in
      let held₁ : Children.Holds layout.node_occupancy node' (root n t)
          (insert_for e.key entry pages) =
        subst
          (λ i.
            Children.Holds layout.node_occupancy (at_pos i).0 (root n t)
              (insert_for e.key entry pages))
          (sym find_pos) held in
      let held₂ =
        subst (λ i. Children.Holds layout.node_occupancy node' i (map (paged (root n)) changed.1))
          (sym same_first)
          (subst (Children.Holds layout.node_occupancy node' (root n t)) (sym same_pages) held₁) in
      let back : (r : ℕ) → s₃.pins r ≡ s.pins r =
        λ r. pins_back s.pins s₂.pins p r (u.below.pins r) (u.below.pins p) in
      let here : s₃.page p ≡ as_inner node' = rw (once_at p) in
      let left =
        unsplit s₃ node' refl (λ r other. at_other s₂.page p r (as_inner node') other) here back
          (insert_child-level layout.node_occupancy pos child.1 child.0 layout.new_inner node) held₂
          e.key in
      (
        s₃,
        rw (tested, Under.node_kept layout n e s p t ks s₂ child u)
            (ap some (node_room layout e.key pos child.0 child.1 p node s₂ none_new')),
        left,
      )

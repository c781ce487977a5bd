-- ===== src/Index/Tree/Divide.antt =====
-- BTreeIndex::insertUnderNode of p3/src/btree.cpp at an inner node that is full and is split.
use cs564_projects.Prelude.{
  ℕ, suc, ◌+◌, ◌-◌, ◌/◌, ◌≤◌, ◌<◌, false, List, [], ◌∷◌, ◌++◌, map, Option, some, ◌==◌,
  if◌then◌else◌, length, ◌≡◌, ◌≢◌, refl, ap, sym, ◌∙◌, ltb, ◌&&◌, not, arith, Bool-cases, inl, inr,
  drop, take, length-map,
}
use mathlib.Core.Path.{subst}
use cs564_projects.Index.Entry.{Entry, before, insert_for, length-insert_for, append_assoc}
use cs564_projects.Index.Entry.Cut.{map-take, map-drop}
use cs564_projects.Index.Kids.{joined, summed, replace, paged, append_nil}
use cs564_projects.Index.Kids.Keep.{replace-one}
use cs564_projects.Index.Kids.Cut.{cut-joined, cut-summed, cut-AllKids, cut-Ranged}
use cs564_projects.Index.Leaf.{RecordId}
use cs564_projects.Index.Inner.{InnerNode, insert_child}
use cs564_projects.Index.Inner.Children
use cs564_projects.Index.Inner.Split.{insert_child_split, drop_one}
use cs564_projects.Index.Inner.Level.{insert_child-level, insert_child_level_right}
use cs564_projects.Index.Store.{
  as_inner, Layout, Store, read_page, un_pin_page, alloc_page, write, at, at_other,
}
use cs564_projects.Index.Insertion.{after_child, insert_in_node}
use cs564_projects.Index.Tree.{Tree, root, entries, count, IsSearch, Stored, Inserted, Fits}
use cs564_projects.Index.Tree.Under
use cs564_projects.Index.Tree.Nodes.{node, changed, pos, find_pos, not_here, pins_back, once_at}

-- The state after a pinned page and a new one were written and unpinned.
abbrev divided : ℕ → InnerNode → InnerNode → Store → Store
divided p left right s =
    let q = s.next_page in
    un_pin_page p
      (un_pin_page q (write q (as_inner right) (write p (as_inner left) (alloc_page s))))

divided-page :
    (p r : ℕ) (left right : InnerNode) (s : Store)
    → (divided p left right s).page r
      ≡ at (at s.page p (as_inner left)) s.next_page (as_inner right) r
unfolding un_pin_page write alloc_page
divided-page p r left right s = refl

divided-pins :
    (p r : ℕ) (left right : InnerNode) (s : Store)
    → p ≢ s.next_page
    → (divided p left right s).pins r ≡ at s.pins p (s.pins p - 1) r
unfolding un_pin_page write alloc_page
divided-pins p r left right s other = ground arith

divided-next :
    (p : ℕ) (left right : InnerNode) (s : Store)
    → (divided p left right s).next_page ≡ s.next_page + 1
unfolding un_pin_page write alloc_page
divided-next p left right s = refl

node_full :
    (layout : Layout) (key pos c least p k : ℕ) (node right : InnerNode) (s : Store)
    → (insert_child layout.node_occupancy layout.new_inner pos least c node).1 ≡ some (k, right)
    → insert_in_node layout key pos (c, least) p node s ≡ (
      divided p (insert_child layout.node_occupancy layout.new_inner pos least c node).0 right s,
      (s.next_page, k),
    )
unfolding insert_in_node
node_full layout key pos c least p k node right s one = rw (one, insert_in_node)

-- The new page is counted once more.
counted_new :
    (p r a b q q' d : ℕ)
    → a + d ≤ b + (if (not (ltb r q)) && ltb r q' then 1 else 0)
    → q ≤ q'
    → (if p == r then 1 else 0) + a + ((if q' == r then 1 else 0) + d + 0)
      ≤ (if p == r then 1 else 0) + b + (if (not (ltb r q)) && ltb r (q' + 1) then 1 else 0)
counted_new p r a b q q' d l m = elim (Bool-cases (q' == r)) [
  | inl x ↦ rw x (ground arith)
  | inr x ↦ rw x (ground arith)
]

same_head {ℓ} : {A : Type ℓ} (x y : A) (xs ys : List A) → x ∷ xs ≡ y ∷ ys → x ≡ y
same_head x y xs ys e = cc

module _ (layout : Layout) (n : ℕ) (e : Entry RecordId) (s : Store) (p : ℕ) (t : Tree n)
    (ks : List (Entry (Tree n))) (s₂ : Store) (child : ℕ × ℕ)
    (u : Under.Under layout n e s p t ks s₂ child) (fits : Fits layout) (k : Entry (Tree n))
    (one : u.below.more ≡ k ∷ []) (positive : 0 < child.0) (page : root n k.value ≡ child.0)
    (key : k.key ≡ child.1) (full : length ks ≡ layout.node_occupancy) where
  abbrev old : InnerNode
  old = node layout n e s p t ks s₂ child u

  abbrev next_first : Tree n
  next_first = (changed layout n e s p t ks s₂ child u).0

  abbrev next_kids : List (Entry (Tree n))
  next_kids = (changed layout n e s p t ks s₂ child u).1

  abbrev place : ℕ
  place = pos layout n e s p t ks s₂ child u

  abbrev mid : ℕ
  mid = (layout.node_occupancy + 1) / 2

  abbrev at_place : ℕ → InnerNode × Option (ℕ × InnerNode)
  at_place i = insert_child layout.node_occupancy layout.new_inner i child.1 child.0 old

  abbrev left : InnerNode
  left = (at_place place).0

  abbrev shown : List (Entry (Tree n)) → List (Entry ℕ)
  shown xs = map (paged (root n)) xs

  kids_shown :
      (root n next_first ≡ root n t)
      × (shown next_kids ≡ insert_for e.key (record { key = child.1; value = child.0 }) (shown ks))
  kids_shown =
      let (a, b) = replace-one (root n) e.key u.below.new t ks k u.below.same_root in
      let told : paged (root n) k ≡ record { key = child.1; value = child.0 } =
        λ i. record { key = key i; value = page i } in
      (
        ap (λ m. root n (replace e.key t ks u.below.new m).0) one ∙ a,
        ap (λ m. shown (replace e.key t ks u.below.new m).1) one
            ∙ b
            ∙ ap (λ x. insert_for e.key x (shown ks)) told,
      )

  kids_num : length next_kids ≡ suc layout.node_occupancy
  kids_num =
      let new : Entry ℕ = record { key = child.1; value = child.0 } in
      let a : length (shown next_kids) ≡ length (insert_for e.key new (shown ks)) =
        ap length kids_shown.1 in
      omega (
        arith,
        full,
        a,
        length-map next_kids (paged (root n)),
        length-map ks (paged (root n)),
        length-insert_for e.key new (shown ks),
      )

  -- The child in the middle, and what both nodes hold.
  parts :
      (m : Entry (Tree n)) × (right : InnerNode) × (drop mid next_kids
        ≡ m ∷ drop (suc mid) next_kids)
      × ((at_place place).1 ≡ some (m.key, right))
      × Children.Holds layout.node_occupancy left (root n next_first) (shown (take mid next_kids))
      × Children.Holds layout.node_occupancy right
          (root n m.value)
          (shown (drop (suc mid) next_kids))
  parts =
      let new : Entry ℕ = record { key = child.1; value = child.0 } in
      let all = insert_for e.key new (shown ks) in
      let full' : length (shown ks) ≡ layout.node_occupancy =
        length-map ks (paged (root n)) ∙ full in
      let (me, cut_pages, left_held, (right, split, right_held)) =
        insert_child_split layout.node_occupancy old (root n t) (shown ks) u.stored.0.3 e.key new
          layout.new_inner full' fits.nodes positive fits.node_keys fits.node_pages in
      let (m, cut) = drop_one mid next_kids (omega (arith, kids_num, fits.nodes)) in
      let found = find_pos layout n e s p t ks s₂ child u in
      let before_pos = length (before e.key (shown ks)) in
      let same : all ≡ shown next_kids = sym kids_shown.1 in
      let me-m : me ≡ paged (root n) m =
        same_head me (paged (root n) m) (drop (suc mid) all) (shown (drop (suc mid) next_kids)) (
          sym cut_pages
          ∙ ap (drop mid) same
          ∙ sym (map-drop (paged (root n)) mid next_kids)
          ∙ ap shown cut) in
      let taken : take mid all ≡ shown (take mid next_kids) =
        ap (take mid) same ∙ sym (map-take (paged (root n)) mid next_kids) in
      let dropped : drop (suc mid) all ≡ shown (drop (suc mid) next_kids) =
        ap (drop (suc mid)) same ∙ sym (map-drop (paged (root n)) (suc mid) next_kids) in
      (
        m,
        right,
        cut,
        ap (λ i. (at_place i).1) found ∙ split ∙ ap (λ x. some (x.key, right)) me-m,
        subst
            (λ i.
              Children.Holds layout.node_occupancy (at_place i).0 (root n next_first)
                (shown (take mid next_kids)))
            (sym found)
            (subst
              (λ r.
                Children.Holds layout.node_occupancy (at_place before_pos).0 r
                  (shown (take mid next_kids)))
              (sym kids_shown.0)
              (subst (Children.Holds layout.node_occupancy (at_place before_pos).0 (root n t)) taken
                left_held)),
        subst
            (λ x.
              Children.Holds layout.node_occupancy right x.value (shown (drop (suc mid) next_kids)))
            me-m (subst (Children.Holds layout.node_occupancy right me.value) dropped right_held),
      )

  -- The child was split, and the node has no room.
  pub without_room :
      (s₃ : Store) × (child' : ℕ × ℕ) × (after_child layout e.key place p (s₂, child)
        ≡ some (s₃, child'))
      × Inserted layout (suc n) e s (p, t, ks) s₃ child'
  unfolding after_child read_page
  without_room =
      let (m, right, cut, split, left_held, right_held) = parts in
      let q = s₂.next_page in
      let s₃ = divided p left right s₂ in
      let tested : (child.0 == 0) ≡ false = ground arith in
      let next = Under.next_kept layout n e s p t ks s₂ child u in
      let under = Under.root_below layout n e s p t ks u.ready in
      let other : p ≢ q = λ x. absurd (omega (arith, x)) in
      let same : (r : ℕ) → p ≢ r → r < q → s₃.page r ≡ s₂.page r = λ r a b.
        divided-page p r left right s₂
        ∙ at_other (at s₂.page p (as_inner left)) q r (as_inner right)
            (λ x. absurd (omega (arith, b, x)))
        ∙ at_other s₂.page p r (as_inner left) a in
      let kids = Under.all_kids layout n e s p t ks s₂ child u s₃ same in
      let cuts = cut-AllKids m (λ v. Stored layout n s₃ v) mid next_kids cut kids.1 in
      let here : s₃.page p ≡ as_inner left =
        divided-page p p left right s₂
        ∙ at_other (at s₂.page p (as_inner left)) q p (as_inner right)
            (λ x. absurd (omega (arith, under, x)))
        ∙ rw (once_at p) in
      let there : s₃.page q ≡ as_inner right = divided-page p q left right s₂ ∙ rw (once_at q) in
      let level =
        insert_child-level layout.node_occupancy place child.1 child.0 layout.new_inner old in
      let level' =
        insert_child_level_right layout.node_occupancy place child.1 child.0 layout.new_inner old
          m.key right split in
      let sibling : Entry (Tree (suc n)) = record {
        key = m.key;
        value = (q, m.value, drop (suc mid) next_kids);
      } in
      (
        s₃,
        (q, m.key),
        rw (tested, Under.node_kept layout n e s p t ks s₂ child u)
            (ap some (node_full layout e.key place child.0 child.1 p m.key old right s₂ split)),
        record {
          new = (p, next_first, take mid next_kids);
          more = sibling ∷ [];
          same_root = refl;
          stored = ((left, here, level ∙ u.stored.0.2, left_held), kids.0, cuts.0);
          all_stored = (((right, there, level' ∙ u.stored.0.2, right_held), cuts.1, cuts.2), tt);
          told = inr (sibling, refl, omega (arith, next, u.ready.positive), refl, refl);
          inserted =
              append_assoc (entries n next_first) (joined (entries n) (take mid next_kids))
                (entries (suc n) sibling.value ++ [])
              ∙ ap (λ xs. entries n next_first ++ (joined (entries n) (take mid next_kids) ++ xs))
                  (append_nil (entries (suc n) sibling.value))
              ∙ ap (λ xs. entries n next_first ++ xs)
                  (sym (cut-joined m (entries n) mid next_kids cut))
              ∙ Under.all_inserted layout n e s p t ks s₂ child u;
          searched = λ lo hi a b o.
              cut-Ranged m (λ x y v. IsSearch n x y v) lo hi mid next_first next_kids cut
                (Under.all_searched layout n e s p t ks s₂ child u lo hi a b o);
          counted = λ r.
              let total = Under.all_counted layout n e s p t ks s₂ child u r in
              let cut_sum = cut-summed m (count n r) mid next_kids cut in
              let part = summed (count n r) (take mid next_kids) in
              counted_new p r (count n r next_first + part) (count n r t + summed (count n r) ks)
                s.next_page q (count n r m.value + summed (count n r) (drop (suc mid) next_kids))
                (omega (arith, total, cut_sum)) next;
          next = omega (arith, next, divided-next p left right s₂);
          kept = λ r away l.
              same r (not_here p r (count n r t + summed (count n r) ks) away)
                (omega (arith, next, l))
              ∙ Under.others_kept layout n e s p t ks s₂ child u r away l;
          pins = λ r.
              divided-pins p r left right s₂ other
              ∙ pins_back s.pins s₂.pins p r (u.below.pins r) (u.below.pins p);
        },
      )

-- ===== src/Index/Tree/Grow.antt =====
-- BTreeIndex::insertUnderNode of p3/src/btree.cpp on the tree that the pages hold.
use cs564_projects.Prelude.{
  ℕ, zero, suc, ◌<◌, Bool, true, false, List, ◌∷◌, map, some, ◌==◌, if◌then◌else◌, length, ◌≡◌, ap,
  ◌∙◌, ltb, arith, Bool-cases, inl, inr, drop, get_or, length-map,
}
use cs564_projects.Index.Entry.{Entry, before}
use cs564_projects.Index.Kids.{child_at, paged, child_at-page, child_at-Ranged}
use cs564_projects.Index.Leaf.{RecordId}
use cs564_projects.Index.Inner.{InnerNode, child_position}
use cs564_projects.Index.Inner.Insert.{find_child}
use cs564_projects.Index.Store.{as_inner, Layout, Store, read_page}
use cs564_projects.Index.Insertion.{insert_under_node, after_child, insert_in_leaf}
use cs564_projects.Index.Tree.{Tree, root, is_leaf, IsSearch, Stored, Inserted, Ready, Fits}
use cs564_projects.Index.Tree.Leaves.{into_leaf, into_two_leaves}
use cs564_projects.Index.Tree.Under
use cs564_projects.Index.Tree.Nodes.{left_alone, with_room}
use cs564_projects.Index.Tree.Divide.{without_room}

-- What an insertion under a tree does.
abbrev pub Grown : (layout : Layout) (n : ℕ) → Entry RecordId → Store → Tree n → Type 0
Grown layout n e s t =
    (s' : Store) × (child : ℕ × ℕ) × (insert_under_node layout (suc n) e.key e.value (root n t)
        (is_leaf n) s
      ≡ some (s', child))
    × Inserted layout n e s t s' child

module _ (layout : Layout) (fits : Fits layout) (e : Entry RecordId)
    (rid : 0 < e.value.page_number) where
  grow_leaf :
      (s : Store) (t : Tree zero)
      → Ready zero s t
      → Stored layout zero s t
      → Grown layout zero e s t
  unfolding insert_under_node
  grow_leaf s t ready stored =
      let r = insert_in_leaf layout e.key e.value t.0 stored.0 (read_page t.0 s) in
      let ran : insert_under_node layout 1 e.key e.value t.0 true s ≡ some r =
        rw (stored.1, insert_under_node) in
      elim (Bool-cases (ltb (length t.1) layout.leaf_occupancy)) [
        | inl l ↦ (r.0, r.1, ran, into_leaf layout e s t stored.0 ready stored.2 rid (ground arith))
        | inr l ↦
            let room = stored.2.room in
            (
              r.0,
              r.1,
              ran,
              into_two_leaves layout e s t stored.0 ready fits stored.2 rid (ground arith),
            )
      ]

  descend :
      (fuel p child : ℕ) (leaf : Bool) (node : InnerNode) (s : Store) (x : Store × (ℕ × ℕ))
      → s.page p ≡ as_inner node
      → (node.level == 1) ≡ leaf
      → get_or node.page_array (child_position e.key node.key_array (drop 1 node.page_array)) 0
        ≡ child
      → insert_under_node layout fuel e.key e.value child leaf (read_page p s) ≡ some x
      → insert_under_node layout (suc fuel) e.key e.value p false s
        ≡ after_child layout e.key
            (child_position e.key node.key_array (drop 1 node.page_array))
            p
            x
  unfolding insert_under_node
  descend fuel p child leaf node s x there level found ran =
      rw (there, insert_under_node) (rw (level, found, ran))

  level_leaf : (n level : ℕ) → level ≡ (if is_leaf n then 1 else 0) → (level == 1) ≡ (is_leaf n)
  level_leaf zero level x = ground arith
  level_leaf (suc n) level x = ground arith

  module _ (n : ℕ) (s : Store) (p : ℕ) (t : Tree n) (ks : List (Entry (Tree n))) where
    child_found :
        (stored : Stored layout (suc n) s (p, t, ks))
        → (let node = stored.0.0 in
            get_or node.page_array (child_position e.key node.key_array (drop 1 node.page_array)) 0)
          ≡ root n (child_at e.key t ks)
    child_found stored =
        let node = stored.0.0 in
        let holds = stored.0.3 in
        ap (λ i. get_or node.page_array i 0)
          (find_child layout.node_occupancy node (root n t) (map (paged (root n)) ks) holds e.key)
        ∙ ap (λ xs. get_or xs (length (before e.key (map (paged (root n)) ks))) 0) holds.page_array
        ∙ child_at-page (root n) e.key t ks (0 ∷ holds.page_rest)

    grow_node :
        (s₂ : Store) (child : ℕ × ℕ) (u : Under.Under layout n e s p t ks s₂ child)
        → insert_under_node layout
            (suc n)
            e.key
            e.value
            (root n (child_at e.key t ks))
            (is_leaf n)
            (read_page p s)
          ≡ some (s₂, child)
        → Grown layout (suc n) e s (p, t, ks)
    grow_node s₂ child u ran =
        let node = u.stored.0.0 in
        let down =
          descend (suc n) p (root n (child_at e.key t ks)) (is_leaf n) node s (s₂, child)
            u.stored.0.1 (level_leaf n node.level u.stored.0.2) (child_found u.stored) ran in
        elim u.below.told [
          | inl (nothing, zero_page) ↦
              let (s₃, after, left) = left_alone layout n e s p t ks s₂ child u nothing zero_page in
              (s₃, child, down ∙ after, left)
          | inr (k, one, positive, page, key) ↦
              elim (Bool-cases (ltb (length ks) layout.node_occupancy)) [
                | inl l ↦
                    let (s₃, after, left) =
                      with_room layout n e s p t ks s₂ child u k one positive page key
                        (ground arith) in
                    (s₃, (0, e.key), down ∙ after, left)
                | inr l ↦
                    let room = u.stored.0.3.room in
                    let num = length-map ks (paged (root n)) in
                    let full : length ks ≡ layout.node_occupancy = ground (arith, room, num) in
                    let (s₃, child', after, left) =
                      without_room layout n e s p t ks s₂ child u fits k one positive page key
                        full in
                    (s₃, child', down ∙ after, left)
              ]
        ]

  pub grow :
      (n lo hi : ℕ) (s : Store) (t : Tree n)
      → IsSearch n lo hi t
      → Ready n s t
      → Stored layout n s t
      → Grown layout n e s t
  grow zero lo hi s t search ready stored = grow_leaf s t ready stored
  grow (suc n) lo hi s (p, t, ks) search ready stored =
      let (a, b, search') = child_at-Ranged (λ x y v. IsSearch n x y v) lo hi e.key t ks search in
      let (s₂, child, ran, below) =
        grow n a b (read_page p s) (child_at e.key t ks) search'
          (Under.child-Ready layout n e s p t ks ready)
          (Under.child-Stored layout n e s p t ks stored) in
      let u : Under.Under layout n e s p t ks s₂ child = record {
        ready = ready;
        stored = stored;
        lo = lo;
        hi = hi;
        ordered = search;
        below = below;
      } in
      grow_node n s p t ks s₂ child u ran

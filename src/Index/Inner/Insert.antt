-- ===== src/Index/Inner/Insert.antt =====
-- The insertion of a child into an inner node of p3/src/btree.cpp that has room for it.
use cs564_projects.Prelude.{
  ℕ, suc, ◌+◌, ◌-◌, ◌<◌, false, List, ◌∷◌, ◌++◌, none, ◌==◌, length, ◌≡◌, ap, ◌∙◌, arith, refl,
  drop,
}
use mathlib.Core.Path.{subst}
use cs564_projects.Index.Array.{put_in}
use cs564_projects.Index.Entry.{
  Entry, keys, values, insert_for, before, length-insert_for, put_in-field, nonempty,
}
use cs564_projects.Index.Inner.{
  InnerNode, child_num, child_position, put_page, mark_end, insert_child,
}
use cs564_projects.Index.Inner.Children.{
  Holds, AllPages-insert_for, child_num-cons, child_position-before, put_page-cons, mark_end-Holds,
}

-- The node with the child put in, before its end is marked.
abbrev pub put_node : ℕ → ℕ → Entry ℕ → InnerNode → InnerNode
put_node occupancy pos e node = record node {
  key_array = put_in occupancy pos (child_num node.page_array - 1) e.key node.key_array;
  page_array = put_page occupancy pos (child_num node.page_array) e.value node.page_array;
}

module _ (occupancy : ℕ) (node : InnerNode) (first : ℕ) (es : List (Entry ℕ))
    (holds : Holds occupancy node first es) (key : ℕ) where
  pub count_children : child_num node.page_array ≡ suc (length es)
  count_children =
      ap child_num holds.page_array
      ∙ child_num-cons first es holds.page_rest holds.first_page holds.pages

  pub find_child :
      child_position key node.key_array (drop 1 node.page_array) ≡ length (before key es)
  find_child =
      ap (λ ks. child_position key ks (drop 1 node.page_array)) holds.key_array
      ∙ ap (λ ps. child_position key (keys es ++ (holds.key_end ∷ holds.key_rest)) (drop 1 ps))
          holds.page_array
      ∙ child_position-before key es holds.key_end holds.key_rest holds.page_rest holds.pages

  module _ (e : Entry ℕ) where
    abbrev put : InnerNode
    put = put_node occupancy (length (before key es)) e node

    pub put_keys : put.key_array ≡ keys (insert_for key e es) ++ holds.key_rest
    put_keys =
        let n : child_num node.page_array - 1 ≡ length es = omega (arith, count_children) in
        ap (λ i. put_in occupancy (length (before key es)) i e.key node.key_array) n
        ∙ ap (put_in occupancy (length (before key es)) (length es) e.key) holds.key_array
        ∙ put_in-field (λ x. x.key) occupancy key e es holds.key_end holds.key_rest holds.room

    pub put_pages : put.page_array ≡ first ∷ (values (insert_for key e es) ++ holds.page_rest)
    put_pages =
        ap (λ i. put_page occupancy (length (before key es)) i e.value node.page_array)
          count_children
        ∙ ap (put_page occupancy (length (before key es)) (suc (length es)) e.value)
            holds.page_array
        ∙ put_page-cons occupancy (length (before key es)) (length es) e.value first
            (values es ++ (0 ∷ holds.page_rest))
        ∙ ap (◌∷◌ first)
            (put_in-field (λ x. x.value) occupancy key e es 0 holds.page_rest holds.room)

    pub insert_child-Holds :
        (new : InnerNode)
        → 0 < e.value
        → length es < occupancy
        → let r = insert_child occupancy new (length (before key es)) e.key e.value node in
          (r.1 ≡ none) × Holds occupancy r.0 first (insert_for key e es)
    unfolding insert_child
    insert_child-Holds new p l =
        let (k, ks, e₁) = nonempty holds.key_rest (omega (arith, holds.key_places)) in
        let (z, zs, e₂) = nonempty holds.page_rest (omega (arith, holds.page_places)) in
        let n = length-insert_for key e es in
        let n₁ : length holds.key_rest ≡ suc (length ks) = ap length e₁ in
        let n₂ : length holds.page_rest ≡ suc (length zs) = ap length e₂ in
        let t : (child_num node.page_array == occupancy + 1) ≡ false =
          ground (arith, count_children) in
        let same : length (insert_for key e es) ≡ child_num node.page_array =
          omega (arith, n, count_children) in
        let marked =
          mark_end-Holds occupancy put first (insert_for key e es) k ks z zs (omega (arith, n))
            holds.first_page (AllPages-insert_for key e es p holds.pages)
            (put_keys ∙ ap (λ xs. keys (insert_for key e es) ++ xs) e₁)
            (put_pages ∙ ap (λ xs. first ∷ (values (insert_for key e es) ++ xs)) e₂)
            (omega (arith, n, n₁, holds.key_places)) (omega (arith, n, n₂, holds.page_places)) in
        rw t (
          refl,
          subst (λ i. Holds occupancy (mark_end i put) first (insert_for key e es)) same marked,
        )

-- ===== src/Index/Inner/Level.antt =====
-- The level of an inner node of p3/src/btree.cpp.
use cs564_projects.Prelude.{ℕ, ◌+◌, some, ◌==◌, ◌≡◌, Bool-cases, inl, inr, arith}
use cs564_projects.Index.Inner.{InnerNode, insert_child, mark_end, right_half, child_num}

module _ (occupancy pos key child : ℕ) (new node : InnerNode) where
  pub insert_child-level : (insert_child occupancy new pos key child node).0.level ≡ node.level
  unfolding insert_child mark_end
  insert_child-level = elim (Bool-cases (child_num node.page_array == occupancy + 1)) [
    | inl t ↦ rw t
    | inr t ↦ rw t
  ]

  pub insert_child_level_right :
      (k : ℕ) (right : InnerNode)
      → (insert_child occupancy new pos key child node).1 ≡ some (k, right)
      → right.level ≡ node.level
  unfolding insert_child right_half mark_end
  insert_child_level_right k right e = ground arith

-- ===== src/Index/Leaf/Insert.antt =====
-- The insertion of an entry into a leaf of p3/src/btree.cpp.
use cs564_projects.Prelude.{
  ℕ, suc, ◌+◌, ◌<◌, false, List, ◌∷◌, ◌++◌, none, ◌==◌, length, ◌≡◌, ap, ◌∙◌, arith, refl,
}
use cs564_projects.Index.Array.{put_in}
use cs564_projects.Index.Entry.{
  Entry, keys, values, ordered_insert, before, length-insert_for, put_in-field, nonempty,
}
use cs564_projects.Index.Leaf.{RecordId, LeafNode, entry_num, position, mark_end, insert_entry}
use cs564_projects.Index.Leaf.Entries.{
  Holds, ordered_insert-AllUsed, entry_num-append, position-before, mark_end-Holds,
}

-- The leaf with the entry put in, before its end is marked.
abbrev pub put_leaf : ℕ → Entry RecordId → LeafNode → LeafNode
put_leaf occupancy e leaf = record leaf {
  key_array =
      put_in occupancy (position e.key leaf.key_array leaf.rid_array) (entry_num leaf.rid_array)
        e.key leaf.key_array;
  rid_array =
      put_in occupancy (position e.key leaf.key_array leaf.rid_array) (entry_num leaf.rid_array)
        e.value leaf.rid_array;
}

module _ (occupancy : ℕ) (leaf : LeafNode) (es : List (Entry RecordId))
    (holds : Holds occupancy leaf es) (e : Entry RecordId) where
  pub count_entries : entry_num leaf.rid_array ≡ length es
  count_entries =
      ap entry_num holds.rid_array
      ∙ entry_num-append es holds.rid_end holds.rid_rest holds.used holds.ends

  find_position : position e.key leaf.key_array leaf.rid_array ≡ length (before e.key es)
  find_position =
      ap (λ ks. position e.key ks leaf.rid_array) holds.key_array
      ∙ ap (position e.key (keys es ++ (holds.key_end ∷ holds.key_rest))) holds.rid_array
      ∙ position-before e.key es holds.key_end holds.key_rest holds.rid_end holds.rid_rest
          holds.used holds.ends

  pub put_keys :
      (put_leaf occupancy e leaf).key_array ≡ keys (ordered_insert e es) ++ holds.key_rest
  put_keys =
      ap (λ i. put_in occupancy i (entry_num leaf.rid_array) e.key leaf.key_array) find_position
      ∙ ap (λ n. put_in occupancy (length (before e.key es)) n e.key leaf.key_array) count_entries
      ∙ ap (put_in occupancy (length (before e.key es)) (length es) e.key) holds.key_array
      ∙ put_in-field (λ x. x.key) occupancy e.key e es holds.key_end holds.key_rest holds.room

  pub put_values :
      (put_leaf occupancy e leaf).rid_array ≡ values (ordered_insert e es) ++ holds.rid_rest
  put_values =
      ap (λ i. put_in occupancy i (entry_num leaf.rid_array) e.value leaf.rid_array) find_position
      ∙ ap (λ n. put_in occupancy (length (before e.key es)) n e.value leaf.rid_array) count_entries
      ∙ ap (put_in occupancy (length (before e.key es)) (length es) e.value) holds.rid_array
      ∙ put_in-field (λ x. x.value) occupancy e.key e es holds.rid_end holds.rid_rest holds.room

  unsplit :
      (new_page : ℕ) (new : LeafNode)
      → length es < occupancy
      → insert_entry occupancy new_page new e.key e.value leaf
        ≡ (mark_end (length (ordered_insert e es)) (put_leaf occupancy e leaf), none)
  unfolding insert_entry
  unsplit new_page new l =
      let t : (entry_num leaf.rid_array == occupancy) ≡ false = ground (arith, count_entries) in
      let n : entry_num leaf.rid_array + 1 ≡ length (ordered_insert e es) =
        omega (arith, count_entries, length-insert_for e.key e es) in
      rw (t, n)

  -- When a leaf holds fewer entries than its occupancy, the insertion of an entry with a page leaves
  -- one leaf, which has the entries with the new one before the first that has a greater key.
  pub insert_entry-Holds :
      (new_page : ℕ) (new : LeafNode)
      → 0 < e.value.page_number
      → length es < occupancy
      → let r = insert_entry occupancy new_page new e.key e.value leaf in
        (r.1 ≡ none) × Holds occupancy r.0 (ordered_insert e es)
  insert_entry-Holds new_page new p l =
      let (k, ks, e₁) = nonempty holds.key_rest (omega (arith, holds.key_places)) in
      let (z, zs, e₂) = nonempty holds.rid_rest (omega (arith, holds.rid_places)) in
      let n = length-insert_for e.key e es in
      let n₁ : length holds.key_rest ≡ suc (length ks) = ap length e₁ in
      let n₂ : length holds.rid_rest ≡ suc (length zs) = ap length e₂ in
      rw (unsplit new_page new l) (
        refl,
        mark_end-Holds occupancy (put_leaf occupancy e leaf) (ordered_insert e es) k ks z zs
            (omega (arith, n)) (ordered_insert-AllUsed e es p holds.used)
            (put_keys ∙ ap (λ xs. keys (ordered_insert e es) ++ xs) e₁)
            (put_values ∙ ap (λ xs. values (ordered_insert e es) ++ xs) e₂)
            (omega (arith, n, n₁, holds.key_places)) (omega (arith, n, n₂, holds.rid_places)),
      )

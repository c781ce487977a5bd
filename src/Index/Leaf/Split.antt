-- ===== src/Index/Leaf/Split.antt =====
-- The split of a full leaf of p3/src/btree.cpp.
use cs564_projects.Prelude.{
  ℕ, zero, suc, ◌+◌, ◌/◌, ◌<◌, ◌≤◌, true, List, [], ◌∷◌, ◌++◌, map, some, ◌==◌, length, ◌≡◌, refl,
  ap, ◌∙◌, arith, length-map, take, drop, length-drop, length-take,
}
use mathlib.Core.Path.{subst}
use cs564_projects.Index.Array.{write_all}
use cs564_projects.Index.Entry.{Entry, keys, values, ordered_insert, length-insert_for, nonempty}
use cs564_projects.Index.Entry.Cut.{append_nil, copied, parted}
use cs564_projects.Index.Leaf.{RecordId, LeafNode, entry_num, mark_end, right_half, insert_entry}
use cs564_projects.Index.Leaf.Entries.{AllUsed, Holds, ordered_insert-AllUsed, mark_end-Holds}
use cs564_projects.Index.Leaf.Insert.{put_leaf, put_keys, put_values, count_entries}

AllUsed-take : (n : ℕ) (es : List (Entry RecordId)) → AllUsed es → AllUsed (take n es)
AllUsed-take zero es u = tt
AllUsed-take (suc n) [] u = tt
AllUsed-take (suc n) (e ∷ es) u = (u.0, AllUsed-take n es u.1)

AllUsed-drop : (n : ℕ) (es : List (Entry RecordId)) → AllUsed es → AllUsed (drop n es)
AllUsed-drop zero es u = u
AllUsed-drop (suc n) [] u = tt
AllUsed-drop (suc n) (e ∷ es) u = AllUsed-drop n es u.1

module _ (occupancy : ℕ) (leaf : LeafNode) (es : List (Entry RecordId))
    (holds : Holds occupancy leaf es) (e : Entry RecordId) (new_page : ℕ) (new : LeafNode)
    (full : length es ≡ occupancy) (wide : 2 ≤ occupancy) (page : 0 < e.value.page_number)
    (key_places : length new.key_array ≡ suc occupancy)
    (rid_places : length new.rid_array ≡ suc occupancy) where
  abbrev all : List (Entry RecordId)
  all = ordered_insert e es

  abbrev lower : ℕ
  lower = occupancy / 2 + 1

  abbrev upper : ℕ
  upper = (occupancy + 1) / 2

  abbrev put : LeafNode
  put = put_leaf occupancy e leaf

  total : length all ≡ lower + upper
  total = omega (arith, length-insert_for e.key e es)

  all-keys : put.key_array ≡ keys all
  all-keys =
      put_keys occupancy leaf es holds e
      ∙ append_nil (keys all) holds.key_rest (omega (arith, holds.key_places))

  all-values : put.rid_array ≡ values all
  all-values =
      put_values occupancy leaf es holds e
      ∙ append_nil (values all) holds.rid_rest (omega (arith, holds.rid_places))

  all-AllUsed : AllUsed all
  all-AllUsed = ordered_insert-AllUsed e es page holds.used

  length-lower : length (take lower all) ≡ lower
  length-lower = omega (arith, length-take lower all, total)

  length-upper : length (drop lower all) ≡ upper
  length-upper = omega (arith, length-drop lower all, total)

  rest_of {ℓ} :
      {A : Type ℓ} (f : Entry RecordId → A)
      → (x : A) × (xs : List A) × (drop lower (map f all) ≡ x ∷ xs) × (length xs + 1 ≡ upper)
  rest_of f =
      let n : length (drop lower (map f all)) ≡ upper =
        omega (arith, length-drop lower (map f all), length-map all f, total) in
      let (x, xs, e') = nonempty (drop lower (map f all)) (omega (arith, n)) in
      let n' : length (drop lower (map f all)) ≡ suc (length xs) = ap length e' in
      (x, xs, e', omega (arith, n, n'))

  left_of_split :
      Holds occupancy (mark_end lower (record put { right_sib = new_page })) (take lower all)
  left_of_split =
      let (k, ks, e₁, n₁) = rest_of (λ x. x.key) in
      let (z, zs, e₂, n₂) = rest_of (λ x. x.value) in
      let marked =
        mark_end-Holds occupancy (record put { right_sib = new_page }) (take lower all) k ks z zs
          (omega (arith, length-lower, wide)) (AllUsed-take lower all all-AllUsed)
          (all-keys ∙ parted (λ x. x.key) lower all ∙ ap (λ xs. keys (take lower all) ++ xs) e₁)
          (all-values
            ∙ parted (λ x. x.value) lower all
            ∙ ap (λ xs. values (take lower all) ++ xs) e₂)
          (omega (arith, length-lower, n₁)) (omega (arith, length-lower, n₂)) in
      subst
        (λ i. Holds occupancy (mark_end i (record put { right_sib = new_page })) (take lower all))
        length-lower marked

  right_of_split : Holds occupancy (right_half occupancy new put) (drop lower all)
  unfolding right_half
  right_of_split =
      let (k, ks, e₁) =
        nonempty (drop upper new.key_array)
          (omega (arith, length-drop upper new.key_array, key_places)) in
      let (z, zs, e₂) =
        nonempty (drop upper new.rid_array)
          (omega (arith, length-drop upper new.rid_array, rid_places)) in
      let n₁ : length (drop upper new.key_array) ≡ suc (length ks) = ap length e₁ in
      let n₂ : length (drop upper new.rid_array) ≡ suc (length zs) = ap length e₂ in
      let copy : LeafNode = record {
        key_array = write_all new.key_array 0 (take upper (drop lower put.key_array));
        rid_array = write_all new.rid_array 0 (take upper (drop lower put.rid_array));
        right_sib = leaf.right_sib;
      } in
      let copy_keys =
        ap (λ xs. write_all new.key_array 0 (take upper (drop lower xs))) all-keys
        ∙ copied (λ x. x.key) upper lower all new.key_array total (omega (arith, key_places))
        ∙ ap (λ xs. keys (drop lower all) ++ xs) e₁ in
      let copy_values =
        ap (λ xs. write_all new.rid_array 0 (take upper (drop lower xs))) all-values
        ∙ copied (λ x. x.value) upper lower all new.rid_array total (omega (arith, rid_places))
        ∙ ap (λ xs. values (drop lower all) ++ xs) e₂ in
      let marked =
        mark_end-Holds occupancy copy (drop lower all) k ks z zs (omega (arith, length-upper, wide))
          (AllUsed-drop lower all all-AllUsed) copy_keys copy_values
          (omega (arith, length-upper, n₁, length-drop upper new.key_array, key_places))
          (omega (arith, length-upper, n₂, length-drop upper new.rid_array, rid_places)) in
      subst (λ i. Holds occupancy (mark_end i copy) (drop lower all)) length-upper marked

  -- When a leaf is full, its occupancy being at least 2, the insertion of an entry with a page splits
  -- it: the leaf keeps the first half of the entries with the new one in its place, the larger if they
  -- are odd in number, and the new right sibling has the others.
  pub insert_entry_split :
      let r = insert_entry occupancy new_page new e.key e.value leaf in
      Holds occupancy r.0 (take lower all)
      × ((right : LeafNode) × (r.1 ≡ some right) × Holds occupancy right (drop lower all))
  unfolding insert_entry
  insert_entry_split =
      let t : (entry_num leaf.rid_array == occupancy) ≡ true =
        ground (arith, count_entries occupancy leaf es holds e) in
      rw t (left_of_split, (right_half occupancy new put, refl, right_of_split))

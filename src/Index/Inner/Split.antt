-- ===== src/Index/Inner/Split.antt =====
-- The split of a full inner node of p3/src/btree.cpp.
use cs564_projects.Prelude.{
  ℕ, zero, suc, ◌+◌, ◌/◌, ◌<◌, ◌≤◌, true, List, [], ◌∷◌, ◌++◌, map, some, ◌==◌, length, ◌≡◌, refl,
  ap, sym, ◌∙◌, arith, length-map, get_or, take, drop, length-drop, length-take,
}
use mathlib.Core.Path.{subst}
use cs564_projects.Index.Array.{write_all}
use cs564_projects.Index.Entry.{
  Entry, keys, values, insert_for, before, length-insert_for, nonempty,
}
use cs564_projects.Index.Entry.Cut.{append_nil, copied, parted, map-drop}
use cs564_projects.Index.Inner.{InnerNode, child_num, mark_end, right_half, insert_child}
use cs564_projects.Index.Inner.Children.{Holds, AllPages, AllPages-insert_for, mark_end-Holds}
use cs564_projects.Index.Inner.Insert.{put_node, count_children, put_keys, put_pages}

AllPages-take : (n : ℕ) (es : List (Entry ℕ)) → AllPages es → AllPages (take n es)
AllPages-take zero es u = tt
AllPages-take (suc n) [] u = tt
AllPages-take (suc n) (e ∷ es) u = (u.0, AllPages-take n es u.1)

AllPages-drop : (n : ℕ) (es : List (Entry ℕ)) → AllPages es → AllPages (drop n es)
AllPages-drop zero es u = u
AllPages-drop (suc n) [] u = tt
AllPages-drop (suc n) (e ∷ es) u = AllPages-drop n es u.1

-- The element at a place, and those behind it.
pub drop_one {ℓ} :
    {A : Type ℓ} (n : ℕ) (xs : List A) → n < length xs → (x : A) × (drop n xs ≡ x ∷ drop (suc n) xs)
drop_one n [] l = absurd (omega arith)
drop_one zero (x ∷ xs) l = (x, refl)
drop_one (suc n) (x ∷ xs) l = drop_one n xs (omega arith)

get_or-drop {ℓ} :
    {A : Type ℓ} (n : ℕ) (xs : List A) (x d : A) (ys : List A)
    → drop n xs ≡ x ∷ ys
    → get_or xs n d ≡ x
get_or-drop zero [] x d ys e = absurd (cc)
get_or-drop zero (y ∷ xs) x d ys e = cc
get_or-drop (suc n) [] x d ys e = absurd (cc)
get_or-drop (suc n) (y ∷ xs) x d ys e = get_or-drop n xs x d ys e

module _ (occupancy : ℕ) (node : InnerNode) (first : ℕ) (es : List (Entry ℕ))
    (holds : Holds occupancy node first es) (key : ℕ) (e : Entry ℕ) (new : InnerNode)
    (full : length es ≡ occupancy) (wide : 1 ≤ occupancy) (page : 0 < e.value)
    (key_places : length new.key_array ≡ suc occupancy)
    (page_places : length new.page_array ≡ suc (suc occupancy)) where
  abbrev all : List (Entry ℕ)
  all = insert_for key e es

  abbrev pub middle : ℕ
  middle = (occupancy + 1) / 2

  abbrev upper : ℕ
  upper = occupancy / 2

  abbrev put : InnerNode
  put = put_node occupancy (length (before key es)) e node

  total : length all ≡ suc (middle + upper)
  total = omega (arith, length-insert_for key e es)

  all-keys : put.key_array ≡ keys all
  all-keys =
      put_keys occupancy node first es holds key e
      ∙ append_nil (keys all) holds.key_rest (omega (arith, holds.key_places))

  all-pages : put.page_array ≡ first ∷ values all
  all-pages =
      put_pages occupancy node first es holds key e
      ∙ ap (◌∷◌ first) (append_nil (values all) holds.page_rest (omega (arith, holds.page_places)))

  all-AllPages : AllPages all
  all-AllPages = AllPages-insert_for key e es page holds.pages

  middle_entry : (m : Entry ℕ) × (drop middle all ≡ m ∷ drop (suc middle) all)
  middle_entry = drop_one middle all (omega (arith, total))

  length-lower : length (take middle all) ≡ middle
  length-lower = omega (arith, length-take middle all, total)

  length-upper : length (drop (suc middle) all) ≡ upper
  length-upper = omega (arith, length-drop (suc middle) all, total)

  rest_of {ℓ} :
      {A : Type ℓ} (f : Entry ℕ → A)
      → (x : A) × (xs : List A) × (drop middle (map f all) ≡ x ∷ xs) × (length xs ≡ upper)
  rest_of f =
      let n : length (drop middle (map f all)) ≡ suc upper =
        omega (arith, length-drop middle (map f all), length-map all f, total) in
      let (x, xs, e') = nonempty (drop middle (map f all)) (omega (arith, n)) in
      let n' : length (drop middle (map f all)) ≡ suc (length xs) = ap length e' in
      (x, xs, e', omega (arith, n, n'))

  left_of_split : Holds occupancy (mark_end middle put) first (take middle all)
  left_of_split =
      let (k, ks, e₁, n₁) = rest_of (λ x. x.key) in
      let (z, zs, e₂, n₂) = rest_of (λ x. x.value) in
      let marked =
        mark_end-Holds occupancy put first (take middle all) k ks z zs
          (omega (arith, length-lower, wide)) holds.first_page
          (AllPages-take middle all all-AllPages)
          (all-keys ∙ parted (λ x. x.key) middle all ∙ ap (λ xs. keys (take middle all) ++ xs) e₁)
          (all-pages
            ∙ ap (◌∷◌ first)
                (parted (λ x. x.value) middle all ∙ ap (λ xs. values (take middle all) ++ xs) e₂))
          (omega (arith, length-lower, n₁)) (omega (arith, length-lower, n₂)) in
      subst (λ i. Holds occupancy (mark_end i put) first (take middle all)) length-lower marked

  middle_page : 0 < middle_entry.0.value
  middle_page =
      let used : AllPages (drop middle all) = AllPages-drop middle all all-AllPages in
      (subst AllPages middle_entry.1 used).0

  right_of_split :
      Holds occupancy (right_half occupancy new put) middle_entry.0.value (drop (suc middle) all)
  unfolding right_half
  right_of_split =
      let m = middle_entry.0 in
      let behind = drop (suc middle) all in
      let (k, ks, e₁) =
        nonempty (drop upper new.key_array)
          (omega (arith, length-drop upper new.key_array, key_places)) in
      let (z, zs, e₂) =
        nonempty (drop (suc upper) new.page_array)
          (omega (arith, length-drop (suc upper) new.page_array, page_places)) in
      let n₁ : length (drop upper new.key_array) ≡ suc (length ks) = ap length e₁ in
      let n₂ : length (drop (suc upper) new.page_array) ≡ suc (length zs) = ap length e₂ in
      let copy : InnerNode = record {
        level = node.level;
        key_array = write_all new.key_array 0 (take upper (drop (middle + 1) put.key_array));
        page_array =
            write_all new.page_array 0 (take (suc upper) (drop (middle + 1) put.page_array));
      } in
      let from : middle + 1 ≡ suc middle = omega arith in
      let copy_keys =
        ap (λ i. write_all new.key_array 0 (take upper (drop i put.key_array))) from
        ∙ ap (λ xs. write_all new.key_array 0 (take upper (drop (suc middle) xs))) all-keys
        ∙ copied (λ x. x.key) upper (suc middle) all new.key_array (omega (arith, total))
            (omega (arith, key_places))
        ∙ ap (λ xs. keys behind ++ xs) e₁ in
      let copy_pages =
        ap (λ i. write_all new.page_array 0 (take (suc upper) (drop i put.page_array))) from
        ∙ ap (λ xs. write_all new.page_array 0 (take (suc upper) (drop (suc middle) xs))) all-pages
        ∙ copied (λ x. x.value) (suc upper) middle all new.page_array (omega (arith, total))
            (omega (arith, page_places))
        ∙ ap (λ xs. values xs ++ drop (suc upper) new.page_array) middle_entry.1
        ∙ ap (λ xs. m.value ∷ (values behind ++ xs)) e₂ in
      let marked =
        mark_end-Holds occupancy copy m.value behind k ks z zs (omega (arith, length-upper, wide))
          middle_page (AllPages-drop (suc middle) all all-AllPages) copy_keys copy_pages
          (omega (arith, length-upper, n₁, length-drop upper new.key_array, key_places))
          (omega (arith, length-upper, n₂, length-drop (suc upper) new.page_array, page_places)) in
      subst (λ i. Holds occupancy (mark_end i copy) m.value behind) length-upper marked

  middle_key : get_or put.key_array middle 0 ≡ middle_entry.0.key
  middle_key =
      ap (λ xs. get_or xs middle 0) all-keys
      ∙ get_or-drop middle (keys all) middle_entry.0.key 0 (keys (drop (suc middle) all))
          (sym (map-drop (λ x. x.key) middle all) ∙ ap keys middle_entry.1)

  -- When an inner node is full, its occupancy being at least 1, the insertion of a child with a page splits
  -- it around the child `m` in the middle: the node keeps those before it, the new right sibling has it as
  -- its first child and those behind it, and its key goes to the parent.
  pub insert_child_split :
      let r = insert_child occupancy new (length (before key es)) e.key e.value node in
      (m : Entry ℕ) × (drop middle all ≡ m ∷ drop (suc middle) all)
      × Holds occupancy r.0 first (take middle all)
      × ((right : InnerNode) × (r.1 ≡ some (m.key, right))
          × Holds occupancy right m.value (drop (suc middle) all))
  unfolding insert_child
  insert_child_split =
      let t : (child_num node.page_array == occupancy + 1) ≡ true =
        ground (arith, count_children occupancy node first es holds key) in
      rw t (
        middle_entry.0,
        middle_entry.1,
        left_of_split,
        (
          right_half occupancy new put,
          ap (λ k. some (k, right_half occupancy new put)) middle_key,
          right_of_split,
        ),
      )

-- ===== src/Index/Scan/Ahead.antt =====
-- scanNext of p3/src/btree.cpp over the leaves from the current page on.
use cs564_projects.Prelude.{
  ℕ, zero, suc, ◌+◌, true, false, List, [], ◌∷◌, ◌++◌, map, none, some, ◌==◌, if◌then◌else◌, ◌≡◌,
  refl, ap, sym, ◌∙◌, arith, Bool-cases, inl, inr, get_or, length, drop,
}
use mathlib.Core.Path.{subst}
use cs564_projects.Index.Entry.{Entry}
use cs564_projects.Index.Leaf.{RecordId, LeafNode, no_rid}
use cs564_projects.Index.Leaf.Entries.{Holds, AllUsed}
use cs564_projects.Index.Store.{as_leaf, read_page, un_pin_page}
use cs564_projects.Index.Scan.{
  Scanner, Returned, ok, throws, index_scan_completed, store, move_to, enter_right, go_on, next_at,
  scan_next, in_bound,
}
use cs564_projects.Index.Scan.Pins.{scan_next_at, scan_next_done}
use cs564_projects.Index.Scan.Range.{
  Chain, flat, below_end, in_bound_lem, in_range, Ahead, first_of, behind_first, at_entry, ended,
}

-- An element of an array, and the one behind it.
place {ℓ} :
    {A : Type ℓ} (f : Entry RecordId → A) (d z : A) (zs : List A) (i : ℕ)
    (es : List (Entry RecordId)) (e : Entry RecordId) (rest : List (Entry RecordId))
    → drop i es ≡ e ∷ rest
    → get_or (map f es ++ (z ∷ zs)) i d ≡ f e
place f d z zs zero [] e rest x = absurd (cc)
place f d z zs (suc i) [] e rest x = absurd (cc)
place f d z zs zero (y ∷ es) e rest x = ap (λ l. f (get_or l 0 y)) x
place f d z zs (suc i) (y ∷ es) e rest x = place f d z zs i es e rest x

place_behind {ℓ} :
    {A : Type ℓ} (f : Entry RecordId → A) (d z : A) (zs : List A) (i : ℕ)
    (es : List (Entry RecordId)) (e : Entry RecordId) (rest : List (Entry RecordId))
    → drop i es ≡ e ∷ rest
    → get_or (map f es ++ (z ∷ zs)) (suc i) d ≡ get_or (map f rest ++ (z ∷ zs)) 0 d
place_behind f d z zs zero [] e rest x = absurd (cc)
place_behind f d z zs (suc i) [] e rest x = absurd (cc)
place_behind f d z zs zero (y ∷ es) e rest x = ap (λ l. get_or (map f (drop 1 l) ++ (z ∷ zs)) 0 d) x
place_behind f d z zs (suc i) (y ∷ es) e rest x = place_behind f d z zs i es e rest x

AllUsed-behind :
    (i : ℕ) (es : List (Entry RecordId)) (e : Entry RecordId) (rest : List (Entry RecordId))
    → drop i es ≡ e ∷ rest
    → AllUsed es
    → AllUsed rest
AllUsed-behind zero es e rest x used = (subst AllUsed x used).1
AllUsed-behind (suc i) [] e rest x used = absurd (cc)
AllUsed-behind (suc i) (y ∷ es) e rest x used = AllUsed-behind i es e rest x used.1

drop_next :
    (i : ℕ) (es : List (Entry RecordId)) (e : Entry RecordId) (rest : List (Entry RecordId))
    → drop i es ≡ e ∷ rest
    → drop (suc i) es ≡ rest
drop_next zero [] e rest x = absurd (cc)
drop_next zero (y ∷ es) e rest x = ap (drop 1) x
drop_next (suc i) [] e rest x = absurd (cc)
drop_next (suc i) (y ∷ es) e rest x = drop_next i es e rest x

module _ (occupancy : ℕ) (b : Scanner) where
  abbrev Next : RecordId → List (Entry RecordId) → Returned RecordId × Scanner → Type 0
  Next rid xs r = (r.0 ≡ ok rid) × (r.1.scan_executing ≡ b.scan_executing) × Ahead occupancy r.1 xs

  -- The next entry is in the leaf.
  in_leaf :
      (i : ℕ) (leaf : LeafNode) (es rest : List (Entry RecordId)) (e₂ : Entry RecordId)
      (more : List (List (Entry RecordId))) (rid : RecordId)
      → (store b).page b.current_page_num ≡ as_leaf leaf
      → Holds occupancy leaf es
      → drop (suc i) es ≡ e₂ ∷ rest
      → Chain occupancy (store b).page leaf.right_sib more
      → Next rid
          (in_range (below_end b) (e₂ ∷ (rest ++ flat more)))
          (ok rid, record b { next_entry = if in_bound b e₂.key then some (suc i) else none })
  in_leaf i leaf es rest e₂ more rid here holds behind chain =
      elim (Bool-cases (below_end b e₂.key)) [
        | inl t ↦
            let b' = record b { next_entry = some (suc i) } in
            let ahead : Ahead occupancy b' (e₂ ∷ in_range (below_end b) (rest ++ flat more)) =
              at_entry (suc i) leaf es rest e₂ more refl here holds behind chain in
            rw (in_bound_lem b e₂.key, t) (refl, refl, ahead)
        | inr t ↦
            let b' = record b { next_entry = none } in
            let ahead : Ahead occupancy b' [] = ended refl in
            rw (in_bound_lem b e₂.key, t) (refl, refl, ahead)
      ]

  -- The next entry is the first of the right sibling.
  in_sibling :
      (p : ℕ) (right : LeafNode) (rest : List (Entry RecordId)) (e₂ : Entry RecordId)
      (more : List (List (Entry RecordId))) (rid : RecordId)
      → (store b).page p ≡ as_leaf right
      → Holds occupancy right (e₂ ∷ rest)
      → Chain occupancy (store b).page right.right_sib more
      → Next rid
          (in_range (below_end b) (e₂ ∷ (rest ++ flat more)))
          (ok rid, record (move_to p b) { next_entry = if in_bound b e₂.key then some 0 else none })
  unfolding move_to read_page un_pin_page
  in_sibling p right rest e₂ more rid here holds chain = elim (Bool-cases (below_end b e₂.key)) [
    | inl t ↦
        let b' = record (move_to p b) { next_entry = some 0 } in
        let ahead : Ahead occupancy b' (e₂ ∷ in_range (below_end b) (rest ++ flat more)) =
          at_entry 0 right (e₂ ∷ rest) rest e₂ more refl here holds refl chain in
        rw (in_bound_lem b e₂.key, t) (refl, refl, ahead)
    | inr t ↦
        let b' = record (move_to p b) { next_entry = none } in
        let ahead : Ahead occupancy b' [] = ended refl in
        rw (in_bound_lem b e₂.key, t) (refl, refl, ahead)
  ]

  -- No entry of the leaf is left.
  across :
      (leaf : LeafNode) (more : List (List (Entry RecordId))) (rid : RecordId)
      → Chain occupancy (store b).page leaf.right_sib more
      → Next rid (in_range (below_end b) (flat more)) (
          if leaf.right_sib == 0
          then (ok rid, record b { next_entry = none })
          else enter_right rid leaf.right_sib b ((store b).page leaf.right_sib))
  unfolding enter_right
  across leaf [] rid chain =
      let t : (leaf.right_sib == 0) ≡ true = ground arith in
      let ahead : Ahead occupancy (record b { next_entry = none }) [] = ended refl in
      rw t (refl, refl, ahead)
  across leaf ([] ∷ more) rid (right, p, here, holds, l, chain) = absurd (omega (arith, l))
  across leaf ((e₂ ∷ rest) ∷ more) rid (right, p, here, holds, l, chain) =
      let t : (leaf.right_sib == 0) ≡ false = ground arith in
      let key : get_or right.key_array 0 0 ≡ e₂.key = ap (λ xs. get_or xs 0 0) holds.key_array in
      let next = in_sibling leaf.right_sib right rest e₂ more rid here holds chain in
      rw (t, here)
        (subst
          (λ k. Next rid (in_range (below_end b) (e₂ ∷ (rest ++ flat more))) (
            ok rid,
            record (move_to leaf.right_sib b) {
              next_entry = if in_bound b k then some 0 else none;
            },
          ))
          (sym key) next)

  gone_on :
      (i : ℕ) (leaf : LeafNode) (es rest : List (Entry RecordId)) (e : Entry RecordId)
      (more : List (List (Entry RecordId)))
      → (store b).page b.current_page_num ≡ as_leaf leaf
      → Holds occupancy leaf es
      → drop i es ≡ e ∷ rest
      → Chain occupancy (store b).page leaf.right_sib more
      → Next e.value (in_range (below_end b) (rest ++ flat more)) (go_on i leaf b)
  unfolding go_on
  gone_on i leaf es [] e more here holds x chain =
      let suc_i : i + 1 ≡ suc i = omega arith in
      let rid : get_or leaf.rid_array i no_rid ≡ e.value =
        ap (λ l. get_or l i no_rid) holds.rid_array
        ∙ place (λ y. y.value) no_rid holds.rid_end holds.rid_rest i es e [] x in
      let end : (get_or leaf.rid_array (i + 1) no_rid).page_number ≡ 0 =
        ap (λ j. (get_or leaf.rid_array j no_rid).page_number) suc_i
        ∙ ap (λ l. (get_or l (suc i) no_rid).page_number) holds.rid_array
        ∙ ap (λ r. r.page_number)
            (place_behind (λ y. y.value) no_rid holds.rid_end holds.rid_rest i es e [] x)
        ∙ holds.ends in
      let t : ((get_or leaf.rid_array (i + 1) no_rid).page_number == 0) ≡ true = ground arith in
      rw (t, rid) (across leaf more e.value chain)
  gone_on i leaf es (e₂ ∷ rest) e more here holds x chain =
      let suc_i : i + 1 ≡ suc i = omega arith in
      let rid : get_or leaf.rid_array i no_rid ≡ e.value =
        ap (λ l. get_or l i no_rid) holds.rid_array
        ∙ place (λ y. y.value) no_rid holds.rid_end holds.rid_rest i es e (e₂ ∷ rest) x in
      let next_rid : get_or leaf.rid_array (i + 1) no_rid ≡ e₂.value =
        ap (λ j. get_or leaf.rid_array j no_rid) suc_i
        ∙ ap (λ l. get_or l (suc i) no_rid) holds.rid_array
        ∙ place_behind (λ y. y.value) no_rid holds.rid_end holds.rid_rest i es e (e₂ ∷ rest) x in
      let next_key : get_or leaf.key_array (i + 1) 0 ≡ e₂.key =
        ap (λ j. get_or leaf.key_array j 0) suc_i
        ∙ ap (λ l. get_or l (suc i) 0) holds.key_array
        ∙ place_behind (λ y. y.key) 0 holds.key_end holds.key_rest i es e (e₂ ∷ rest) x in
      let used = AllUsed-behind i es e (e₂ ∷ rest) x holds.used in
      let t : (e₂.value.page_number == 0) ≡ false = ground (arith, used.0) in
      rw (rid, next_rid, next_key, t, suc_i)
        (in_leaf i leaf es rest e₂ more e.value here holds (drop_next i es e (e₂ ∷ rest) x) chain)

-- While a scan executes, scanNext returns the next entry that is ahead, and those behind it stay ahead;
-- where none is, it throws IndexScanCompletedException. What is ahead is found by the keys of the entries
-- in the linked leaves alone: those from the next entry on, up to the first above the range, which ends
-- before the high value for LT and with it for LTE.
pub scan_next-Ahead :
    (occupancy : ℕ) (b : Scanner) (xs : List (Entry RecordId))
    → b.scan_executing ≡ true
    → Ahead occupancy b xs
    → (let r = scan_next b in
        (r.0 ≡ first_of xs) × (r.1.scan_executing ≡ true) × Ahead occupancy r.1 (behind_first xs))
unfolding next_at
scan_next-Ahead occupancy b xs on (ended done) =
    subst (λ r. (r.0 ≡ first_of []) × (r.1.scan_executing ≡ true) × Ahead occupancy r.1 [])
      (sym (scan_next_done b on done)) (refl, on, ended done)
scan_next-Ahead occupancy b xs on (at_entry i leaf es rest e more at here holds x chain) =
    let (returned, executing, ahead) =
      gone_on occupancy b i leaf es rest e more here holds x chain in
    subst
      (λ r.
        (r.0 ≡ ok e.value)
        × (r.1.scan_executing ≡ true)
        × Ahead occupancy r.1 (in_range (below_end b) (rest ++ flat more)))
      (ap (next_at i b) (sym here) ∙ sym (scan_next_at b i on at)) (returned, executing ∙ on, ahead)

-- The records of a scan, up to the end.
abbrev pub scan_all : ℕ → Scanner → List (Returned RecordId) × Scanner
scan_all zero b = ([], b)
scan_all (suc n) b = let (r, b') = scan_next b in let (rs, end) = scan_all n b' in (r ∷ rs, end)

abbrev pub returned : List (Entry RecordId) → List (Returned RecordId)
returned [] = throws index_scan_completed ∷ []
returned (e ∷ es) = ok e.value ∷ returned es

-- As many calls of scanNext as entries are ahead return those entries, in their order, and one more call
-- throws IndexScanCompletedException.
pub scan_all-Ahead :
    (occupancy : ℕ) (b : Scanner) (xs : List (Entry RecordId))
    → b.scan_executing ≡ true
    → Ahead occupancy b xs
    → (scan_all (suc (length xs)) b).0 ≡ returned xs
scan_all-Ahead occupancy b [] on ahead =
    ap (λ r. r ∷ []) (scan_next-Ahead occupancy b [] on ahead).0
scan_all-Ahead occupancy b (e ∷ xs) on ahead =
    let (now, executing, rest) = scan_next-Ahead occupancy b (e ∷ xs) on ahead in
    ap (λ r. r ∷ (scan_all (suc (length xs)) (scan_next b).1).0) now
    ∙ ap (◌∷◌ (ok e.value)) (scan_all-Ahead occupancy (scan_next b).1 xs executing rest)

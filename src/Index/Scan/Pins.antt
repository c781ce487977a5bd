-- ===== src/Index/Scan/Pins.antt =====
-- The pins that a scan of p3/src/btree.cpp holds.
use cs564_projects.Prelude.{
  ℕ, zero, suc, ◌+◌, Bool, true, false, ◌&&◌, ◌||◌, not, List, [], ◌∷◌, Option, none, some, ltb,
  ◌==◌, if◌then◌else◌, ◌≡◌, refl, sym, arith, Bool-cases, inl, inr, ◌⊎◌, get_or,
}
use cs564_projects.Index.Leaf.{RecordId, LeafNode, no_rid}
use mathlib.Core.Path.{subst}
use cs564_projects.Index.Inner.{InnerNode}
use cs564_projects.Index.Store.{Content, as_leaf, as_inner, as_meta, Layout, read_page, un_pin_page}
use cs564_projects.Index.Scan.{
  Scanner, Operator, Returned, throws, Search, found, not_found, beyond, store, move_to, end_scan,
  go_on, enter_right, next_at, scan_next, down_at, from_entry, from_root, bad_opcodes,
  bad_scanrange, index_scan_completed, scan_not_initialized, go_down, page_down, first_entry,
  at_leaf, from_header, start_scan, is_low, is_high,
}

-- Only the current page is pinned once more than in `base`, and this only while a scan is executing.
abbrev pub Pinned : (ℕ → ℕ) → Scanner → Type 0
Pinned base b =
    (r : ℕ)
    → (store b).pins r ≡ base r + (if b.scan_executing && b.current_page_num == r then 1 else 0)

Option-cases {ℓ} : {A : Type ℓ} (x : Option A) → (x ≡ none) ⊎ ((a : A) × (x ≡ some a))
Option-cases none = inl refl
Option-cases (some a) = inr (a, refl)

either :
    {A : Type 0} (P : A → Type 0) (t : Bool) (x y : A)
    → (t ≡ true → P x)
    → (t ≡ false → P y)
    → P (if t then x else y)
either P true x y p q = p refl
either P false x y p q = q refl

pub scan_next_done :
    (b : Scanner)
    → b.scan_executing ≡ true
    → b.next_entry ≡ none
    → scan_next b ≡ (throws index_scan_completed, b)
unfolding scan_next
scan_next_done b on e = simp (on, e)

pub scan_next_at :
    (b : Scanner) (i : ℕ)
    → b.scan_executing ≡ true
    → b.next_entry ≡ some i
    → scan_next b ≡ next_at i b ((store b).page b.current_page_num)
unfolding scan_next
scan_next_at b i on e = simp (on, e)

scan_next_off :
    (b : Scanner) → b.scan_executing ≡ false → scan_next b ≡ (throws scan_not_initialized, b)
unfolding scan_next
scan_next_off b off = rw off

module _ (base : ℕ → ℕ) where
  move_to-Pinned :
      (p : ℕ) (b : Scanner) → b.scan_executing ≡ true → Pinned base b → Pinned base (move_to p b)
  unfolding move_to read_page un_pin_page
  move_to-Pinned p b on pinned r =
      let here = pinned r in
      let there = pinned p in let current = pinned b.current_page_num in ground arith

  end_scan-Pinned : (b : Scanner) → Pinned base b → Pinned base (end_scan b).1
  unfolding end_scan un_pin_page
  end_scan-Pinned b pinned r =
      let here = pinned r in let current = pinned b.current_page_num in ground arith

  end_scan_off : (b : Scanner) → (end_scan b).1.scan_executing ≡ false
  unfolding end_scan
  end_scan_off b = ground arith

  enter_right-Pinned :
      (rid : RecordId) (p : ℕ) (b : Scanner) (c : Content)
      → b.scan_executing ≡ true
      → Pinned base b
      → Pinned base (enter_right rid p b c).1
  unfolding enter_right move_to
  enter_right-Pinned rid p b (as_leaf right) on pinned = move_to-Pinned p b on pinned
  enter_right-Pinned rid p b (as_inner node) on pinned = pinned
  enter_right-Pinned rid p b (as_meta meta) on pinned = pinned

  go_on-Pinned :
      (i : ℕ) (leaf : LeafNode) (b : Scanner)
      → b.scan_executing ≡ true
      → Pinned base b
      → Pinned base (go_on i leaf b).1
  unfolding go_on
  go_on-Pinned i leaf b on pinned =
      elim (Bool-cases ((get_or leaf.rid_array (i + 1) no_rid).page_number == 0)) [
        | inl t ↦ elim (Bool-cases (leaf.right_sib == 0)) [
          | inl z ↦ rw (t, z) pinned
          | inr z ↦
              rw (t, z)
                (enter_right-Pinned (get_or leaf.rid_array i no_rid) leaf.right_sib b
                  ((store b).page leaf.right_sib) on pinned)
        ]
        | inr t ↦ rw t pinned
      ]

  next_at-Pinned :
      (i : ℕ) (b : Scanner) (c : Content)
      → b.scan_executing ≡ true
      → Pinned base b
      → Pinned base (next_at i b c).1
  unfolding next_at
  next_at-Pinned i b (as_leaf leaf) on pinned = go_on-Pinned i leaf b on pinned
  next_at-Pinned i b (as_inner node) on pinned = pinned
  next_at-Pinned i b (as_meta meta) on pinned = pinned

  scan_next-Pinned : (b : Scanner) → Pinned base b → Pinned base (scan_next b).1
  unfolding scan_next
  scan_next-Pinned b pinned = elim (Bool-cases b.scan_executing) [
    | inl on ↦ elim (Option-cases b.next_entry) [
      | inl e ↦ subst (λ x. Pinned base x.1) (sym (scan_next_done b on e)) pinned
      | inr (i, e) ↦
          subst (λ x. Pinned base x.1) (sym (scan_next_at b i on e))
            (next_at-Pinned i b ((store b).page b.current_page_num) on pinned)
    ]
    | inr off ↦ subst (λ x. Pinned base x.1) (sym (scan_next_off b off)) pinned
  ]

  -- What startScan goes through keeps the pins, and the scan goes on.
  abbrev Held : Scanner → Type 0
  Held b = (b.scan_executing ≡ true) × Pinned base b

  abbrev HeldLeaf : Option (LeafNode × Scanner) → Type 0
  HeldLeaf none = Unit
  HeldLeaf (some x) = Held x.1

  move_to-Held : (p : ℕ) (b : Scanner) → Held b → Held (move_to p b)
  unfolding move_to
  move_to-Held p b (on, pinned) = (on, move_to-Pinned p b on pinned)

  down_at-Held :
      (is_leaf : Bool) (b : Scanner) (f : InnerNode → Option (LeafNode × Scanner)) (c : Content)
      → Held b
      → ((node : InnerNode) → HeldLeaf (f node))
      → HeldLeaf (down_at is_leaf b f c)
  unfolding down_at
  down_at-Held true b f (as_leaf leaf) held later = held
  down_at-Held false b f (as_leaf leaf) held later = tt
  down_at-Held true b f (as_inner node) held later = tt
  down_at-Held false b f (as_inner node) held later = later node
  down_at-Held is_leaf b f (as_meta meta) held later = tt

  go_down-Held :
      (fuel occupancy low : ℕ) (is_leaf : Bool) (b : Scanner)
      → Held b
      → HeldLeaf (go_down fuel occupancy low is_leaf b)
  unfolding go_down
  go_down-Held zero occupancy low is_leaf b held = tt
  go_down-Held (suc fuel) occupancy low is_leaf b held =
      down_at-Held is_leaf b
        (λ node.
          go_down fuel occupancy low (node.level == 1) (move_to (page_down occupancy low node) b))
        ((store b).page b.current_page_num) held
        (λ node.
          go_down-Held fuel occupancy low (node.level == 1)
            (move_to (page_down occupancy low node) b)
            (move_to-Held (page_down occupancy low node) b held))

  from_entry-Pinned :
      (leaf : LeafNode) (b : Scanner) (x : Search) → Held b → Pinned base (from_entry leaf b x).1
  unfolding from_entry move_to
  from_entry-Pinned leaf b (found i) held = held.1
  from_entry-Pinned leaf b beyond held = held.1
  from_entry-Pinned leaf b not_found held = elim (Bool-cases (leaf.right_sib == 0)) [
    | inl z ↦ rw z (held.1)
    | inr z ↦ rw z (move_to-Pinned leaf.right_sib b held.0 held.1)
  ]

  at_leaf-Pinned :
      (occupancy : ℕ) (x : Option (LeafNode × Scanner)) (b : Scanner)
      → HeldLeaf x
      → Held b
      → Pinned base (at_leaf occupancy x b).1
  unfolding at_leaf
  at_leaf-Pinned occupancy none b x held = held.1
  at_leaf-Pinned occupancy (some (leaf, b')) b x held =
      from_entry-Pinned leaf b' (first_entry b' occupancy leaf.key_array leaf.rid_array) x

  from_root-Pinned :
      (layout : Layout) (b : Scanner) (c : Content) → Held b → Pinned base (from_root layout b c).1
  unfolding from_root
  from_root-Pinned layout b (as_meta meta) held =
      at_leaf-Pinned layout.leaf_occupancy
        (go_down meta.height layout.node_occupancy b.low_val (meta.height == 1) b) b
        (go_down-Held meta.height layout.node_occupancy b.low_val (meta.height == 1) b held) held
  from_root-Pinned layout b (as_leaf leaf) held = held.1
  from_root-Pinned layout b (as_inner node) held = held.1

  from_header-Pinned :
      (layout : Layout) (b : Scanner)
      → b.scan_executing ≡ false
      → Pinned base b
      → Pinned base (from_header layout b).1
  unfolding from_header read_page un_pin_page
  from_header-Pinned layout b off pinned =
      from_root-Pinned layout _ ((store b).page b.index.header_page_num) (
        refl,
        λ r.
            let here = pinned r in
            let header = pinned b.index.header_page_num in
            let root = pinned b.index.root_page_num in ground arith,
      )

  abbrev Kept : Returned Unit × Scanner → Type 0
  Kept x = Pinned base x.1

  start_scan-Pinned :
      (layout : Layout) (low : ℕ) (low_op : Operator) (high : ℕ) (high_op : Operator) (b : Scanner)
      → Pinned base b
      → Pinned base (start_scan layout low low_op high high_op b).1
  unfolding start_scan
  start_scan-Pinned layout low low_op high high_op b pinned =
      let b' : Scanner = record b {
        low_op = low_op;
        high_op = high_op;
        low_val = low;
        high_val = high;
      } in
      let off' : Scanner = if b.scan_executing then (end_scan b').1 else b' in
      let is_off =
        either (λ (x : Scanner). x.scan_executing ≡ false) b.scan_executing (end_scan b').1 b'
          (λ on. end_scan_off b') (λ off. off) in
      let is_pinned =
        either (Pinned base) b.scan_executing (end_scan b').1 b' (λ on. end_scan-Pinned b' pinned)
          (λ off. pinned) in
      either Kept (not (is_low low_op) || not (is_high high_op)) (throws bad_opcodes, b) _
        (λ bad. pinned)
        (λ good.
          either Kept (ltb high low) (throws bad_scanrange, b') (from_header layout off')
            (λ bad. pinned) (λ range. from_header-Pinned layout off' is_off is_pinned))

-- The calls of a client.
pub data Call : Type 0 where
  start : ℕ → Operator → ℕ → Operator → Call
  next : Call
  stop : Call

abbrev pub called : Layout → Call → Scanner → Scanner
called layout (start low low_op high high_op) b = (start_scan layout low low_op high high_op b).1
called layout next b = (scan_next b).1
called layout stop b = (end_scan b).1

abbrev pub all_called : Layout → List Call → Scanner → Scanner
all_called layout [] b = b
all_called layout (c ∷ calls) b = all_called layout calls (called layout c b)

module _ (base : ℕ → ℕ) (layout : Layout) where
  called-Pinned : (c : Call) (b : Scanner) → Pinned base b → Pinned base (called layout c b)
  called-Pinned (start low low_op high high_op) b pinned =
      start_scan-Pinned base layout low low_op high high_op b pinned
  called-Pinned next b pinned = scan_next-Pinned base b pinned
  called-Pinned stop b pinned = end_scan-Pinned base b pinned

  all_called-Pinned :
      (calls : List Call) (b : Scanner) → Pinned base b → Pinned base (all_called layout calls b)
  all_called-Pinned [] b pinned = pinned
  all_called-Pinned (c ∷ calls) b pinned =
      all_called-Pinned calls (called layout c b) (called-Pinned c b pinned)

-- Whatever calls of startScan, scanNext and endScan are made of an index with no scan executing, and
-- whatever they throw, the current page is afterwards pinned once more than before if a scan is executing,
-- and every other page as often as before.
pub all_called_pins :
    (layout : Layout) (calls : List Call) (b : Scanner)
    → b.scan_executing ≡ false
    → (r : ℕ)
    → (let b' = all_called layout calls b in
        (store b').pins r
        ≡ (store b).pins r + (if b'.scan_executing && b'.current_page_num == r then 1 else 0))
all_called_pins layout calls b off =
    all_called-Pinned (store b).pins layout calls b (λ r. simp off (omega arith))

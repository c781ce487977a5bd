-- ===== src/Pool/Manager/Linked.antt =====
-- The hash table and the descriptors of p2/src/buffer.cpp agree on which page is in which frame, and
-- the changes of both that keep it so.
use cs564_projects.Prelude.{
  ℕ, ◌<◌, true, false, List, none, some, ◌==◌, get_or, set, length, ◌≡◌, ◌≢◌, refl, ap, sym, ◌∙◌,
  arith, get_or-set_self, get_or-set_ne, length-set, Bool-cases, inl, inr,
}
use cs564_projects.Pool.HashTable.{Hash, BufHashTbl}
use cs564_projects.Pool.HashTable.Chains.{same_page}
use cs564_projects.Pool.HashTable.Laws.{IsValid, view, Becomes}
use cs564_projects.Pool.Manager.{BufDesc, no_desc, no_file, clear}

abbrev pub desc_at : List BufDesc → ℕ → BufDesc
desc_at ds k = get_or ds k no_desc

-- The frame is unused.
pub record IsClear (d : BufDesc) : Type 0 where
  pub unpinned : d.pin_cnt ≡ 0
  pub clean : d.dirty ≡ false
  pub nameless : d.file ≡ no_file

-- A page has the frame `k` in the table exactly when the valid descriptor `k` names it, and invalid
-- descriptors are clear.
pub record Linked (h : Hash) (n : ℕ) (t : BufHashTbl) (ds : List BufDesc) : Type 0 where
  pub table : IsValid t
  pub size : length ds ≡ n
  pub mapped :
      (f p k : ℕ)
      → view h t f p ≡ some k
      → (k < n)
        × ((desc_at ds k).valid ≡ true)
        × ((desc_at ds k).file ≡ f)
        × ((desc_at ds k).page_no ≡ p)
  pub listed :
      (k : ℕ)
      → (desc_at ds k).valid ≡ true
      → view h t (desc_at ds k).file (desc_at ds k).page_no ≡ some k
  pub cleared : (k : ℕ) → (desc_at ds k).valid ≡ false → IsClear (desc_at ds k)

-- Pages with two frames are two pages.
not_same_page :
    (h : Hash) (t : BufHashTbl) (f p g q k j : ℕ)
    → view h t f p ≡ some k
    → view h t g q ≡ some j
    → k ≢ j
    → same_page f p g q ≡ false
not_same_page h t f p g q k j a b ne = elim (Bool-cases (same_page f p g q)) [
  | inr e ↦ e
  | inl e ↦
      let file : f ≡ g = ground arith in
      let page : p ≡ q = ground arith in absurd (ne (some_eq k j (sym a ∙ rw (file, page) b)))
]
  where
    some_eq : (x y : ℕ) → some x ≡ some y → x ≡ y
    some_eq x y e = cc

module _ (h : Hash) (n : ℕ) (t : BufHashTbl) (ds : List BufDesc) (linked : Linked h n t ds)
    (k : ℕ) where
  -- A valid frame changes, but not its page.
  pub touch-Linked :
      (d : BufDesc)
      → (desc_at ds k).valid ≡ true
      → d.valid ≡ true
      → d.file ≡ (desc_at ds k).file
      → d.page_no ≡ (desc_at ds k).page_no
      → Linked h n t (set ds k d)
  touch-Linked d old new file page =
      let inside : k < length ds =
        omega (arith, (linked.mapped _ _ k (linked.listed k old)).0, linked.size) in
      record {
        table = linked.table;
        size = length-set ds k d ∙ linked.size;
        mapped = λ f p j e. elim (Bool-cases (k == j)) [
          | inl same ↦
              let here : j ≡ k = ground arith in
              let m = linked.mapped f p j e in
              rw (here, get_or-set_self ds k d no_desc inside)
                (ground arith, new, ground arith, ground arith)
          | inr other ↦ rw (get_or-set_ne ds k j d no_desc (ground arith)) (linked.mapped f p j e)
        ];
        listed = λ j. elim (Bool-cases (k == j)) [
          | inl same ↦
              let here : j ≡ k = ground arith in
              rw (here, get_or-set_self ds k d no_desc inside)
                (λ _. rw (file, page) (linked.listed k old))
          | inr other ↦ rw (get_or-set_ne ds k j d no_desc (ground arith)) (linked.listed j)
        ];
        cleared = λ j. elim (Bool-cases (k == j)) [
          | inl same ↦
              let here : j ≡ k = ground arith in
              rw (here, get_or-set_self ds k d no_desc inside) (λ e. absurd (ground arith))
          | inr other ↦ rw (get_or-set_ne ds k j d no_desc (ground arith)) (linked.cleared j)
        ];
      }

  -- A page leaves its frame, and the frame is cleared.
  pub drop-Linked :
      (u : BufHashTbl)
      → (desc_at ds k).valid ≡ true
      → Becomes h t (desc_at ds k).file (desc_at ds k).page_no none u
      → Linked h n u (set ds k (clear (desc_at ds k)))
  unfolding clear
  drop-Linked u old b =
      let d = desc_at ds k in
      let own = linked.listed k old in
      let inside : k < length ds = omega (arith, (linked.mapped _ _ k own).0, linked.size) in
      record {
        table = b.valid;
        size = length-set ds k (clear d) ∙ linked.size;
        mapped = λ f p j e.
            let apart : same_page d.file d.page_no f p ≡ false = ground (arith, b.reads f p) in
            let before : view h t f p ≡ some j = ground (arith, b.reads f p) in
            let m = linked.mapped f p j before in
            let other : k ≢ j = λ same. another f p j m apart same in
            rw (get_or-set_ne ds k j (clear d) no_desc other) m;
        listed = λ j. elim (Bool-cases (k == j)) [
          | inl same ↦
              let here : j ≡ k = ground arith in
              rw (here, get_or-set_self ds k (clear d) no_desc inside) (λ e. absurd (cc))
          | inr other ↦
              let ne : k ≢ j = ground arith in
              rw (get_or-set_ne ds k j (clear d) no_desc ne) (λ e.
                let l = linked.listed j e in
                let apart = not_same j ne e in
                b.reads (desc_at ds j).file (desc_at ds j).page_no ∙ rw apart l)
        ];
        cleared = λ j. elim (Bool-cases (k == j)) [
          | inl same ↦
              let here : j ≡ k = ground arith in
              rw (here, get_or-set_self ds k (clear d) no_desc inside)
                (λ _. record { unpinned = refl; clean = refl; nameless = refl })
          | inr other ↦
              rw (get_or-set_ne ds k j (clear d) no_desc (ground arith)) (linked.cleared j)
        ];
      }
    where
      another :
          (f p j : ℕ)
          → (j < n)
            × ((desc_at ds j).valid ≡ true)
            × ((desc_at ds j).file ≡ f)
            × ((desc_at ds j).page_no ≡ p)
          → same_page (desc_at ds k).file (desc_at ds k).page_no f p ≡ false
          → k ≡ j
          → ⊥
      another f p j m apart same =
          let file : (desc_at ds k).file ≡ (desc_at ds j).file =
            ap (λ i. (desc_at ds i).file) same in
          let page : (desc_at ds k).page_no ≡ (desc_at ds j).page_no =
            ap (λ i. (desc_at ds i).page_no) same in
          ground arith

      not_same :
          (j : ℕ)
          → k ≢ j
          → (desc_at ds j).valid ≡ true
          → same_page
              (desc_at ds k).file
              (desc_at ds k).page_no
              (desc_at ds j).file
              (desc_at ds j).page_no
            ≡ false
      not_same j ne e =
          not_same_page h t (desc_at ds k).file (desc_at ds k).page_no (desc_at ds j).file
            (desc_at ds j).page_no k j (linked.listed k old) (linked.listed j e) ne

-- ===== src/Pool/Manager/Install.antt =====
-- A page gets a frame: the change of the hash table and the descriptors of p2/src/buffer.cpp.
use cs564_projects.Prelude.{
  ℕ, ◌<◌, true, false, List, none, some, ◌==◌, if◌then◌else◌, set, length, ◌≡◌, ◌≢◌, refl, ap, sym,
  ◌∙◌, arith, get_or-set_self, get_or-set_ne, length-set, Bool-cases, inl, inr,
}
use cs564_projects.Pool.HashTable.{Hash, BufHashTbl}
use cs564_projects.Pool.HashTable.Chains.{same_page}
use cs564_projects.Pool.HashTable.Laws.{view, Becomes}
use cs564_projects.Pool.Manager.{BufDesc, no_desc, assign}
use cs564_projects.Pool.Manager.Linked.{Linked, desc_at}

pub absent_page :
    (h : Hash) (t : BufHashTbl) (f p g q j : ℕ)
    → view h t f p ≡ none
    → view h t g q ≡ some j
    → same_page f p g q ≡ false
absent_page h t f p g q j a b = elim (Bool-cases (same_page f p g q)) [
  | inr e ↦ e
  | inl e ↦
      let file : f ≡ g = ground arith in
      let page : p ≡ q = ground arith in absurd (none_some (sym a ∙ rw (file, page) b))
]
  where
    none_some : none ≡ some j → ⊥
    none_some e = cc

module _ (h : Hash) (n : ℕ) (t : BufHashTbl) (ds : List BufDesc) (linked : Linked h n t ds)
    (k : ℕ) where
  -- A page that has no frame gets a frame that holds none.
  pub install-Linked :
      (u : BufHashTbl) (f p : ℕ)
      → k < n
      → (desc_at ds k).valid ≡ false
      → view h t f p ≡ none
      → Becomes h t f p (some k) u
      → Linked h n u (set ds k (assign f p (desc_at ds k)))
  unfolding assign
  install-Linked u f p l free absent b =
      let d = desc_at ds k in
      let inside : k < length ds = omega (arith, linked.size) in
      record {
        table = b.valid;
        size = length-set ds k (assign f p d) ∙ linked.size;
        mapped = λ g q j e. elim (Bool-cases (same_page f p g q)) [
          | inl same ↦
              let here : j ≡ k = ground (arith, b.reads g q) in
              rw (here, get_or-set_self ds k (assign f p d) no_desc inside)
                (l, refl, ground arith, ground arith)
          | inr apart ↦
              let before : view h t g q ≡ some j = ground (arith, b.reads g q) in
              let m = linked.mapped g q j before in
              let other : k ≢ j = λ same. used j m.1 same in
              rw (get_or-set_ne ds k j (assign f p d) no_desc other) m
        ];
        listed = λ j. elim (Bool-cases (k == j)) [
          | inl same ↦
              let here : j ≡ k = ground arith in
              rw (here, get_or-set_self ds k (assign f p d) no_desc inside)
                (λ _. ground (arith, b.reads f p))
          | inr other ↦ rw (get_or-set_ne ds k j (assign f p d) no_desc (ground arith)) (λ e.
              b.reads (desc_at ds j).file (desc_at ds j).page_no ∙ elsewhere j (linked.listed j e))
        ];
        cleared = λ j. elim (Bool-cases (k == j)) [
          | inl same ↦
              let here : j ≡ k = ground arith in
              rw (here, get_or-set_self ds k (assign f p d) no_desc inside)
                (λ e. absurd (true_ne e))
          | inr other ↦
              rw (get_or-set_ne ds k j (assign f p d) no_desc (ground arith)) (linked.cleared j)
        ];
      }
    where
      true_ne : true ≡ false → ⊥
      true_ne e = cc

      used : (j : ℕ) → (desc_at ds j).valid ≡ true → k ≡ j → ⊥
      used j e same =
          let same_desc : (desc_at ds k).valid ≡ (desc_at ds j).valid =
            ap (λ i. (desc_at ds i).valid) same in
          cc

      elsewhere :
          (j : ℕ)
          → view h t (desc_at ds j).file (desc_at ds j).page_no ≡ some j
          → (if same_page f p (desc_at ds j).file (desc_at ds j).page_no
              then some k
              else view h t (desc_at ds j).file (desc_at ds j).page_no)
            ≡ some j
      elsewhere j e =
          rw (absent_page h t f p (desc_at ds j).file (desc_at ds j).page_no j absent e) e

-- ===== src/Index/Tree/Under.antt =====
-- The step of BTreeIndex::insertUnderNode of p3/src/btree.cpp from a node to the child for the key: what the
-- insertion under the child says of all the children.
use cs564_projects.Prelude.{
  ℕ, suc, ◌+◌, ◌≤◌, ◌<◌, List, ◌++◌, ◌==◌, if◌then◌else◌, ◌≡◌, ◌≢◌, refl, ◌∙◌, ltb, ◌&&◌, not,
  arith, Bool-cases, inl, inr,
}
use cs564_projects.Index.Entry.{Entry, ordered_insert}
use cs564_projects.Index.Kids.{
  joined, summed, AllKids, child_at, replace, child_at-AllKids, child_at-summed, AllKids-frame,
}
use cs564_projects.Index.Kids.Replace.{replace-summed, replace-joined}
use cs564_projects.Index.Kids.Keep.{replace-Ranged, replace-AllKids}
use cs564_projects.Index.Leaf.{RecordId}
use cs564_projects.Index.Inner.{InnerNode}
use cs564_projects.Index.Store.{as_inner, Layout, Store, read_page}
use cs564_projects.Index.Tree.{
  Tree, entries, count, IsSearch, IsSearch-InOrder, once_here, Stored, Stored-frame, Inserted,
  Ready, fresh,
}

-- The node with its children before, and the state after the insertion under the child for the key.
pub record Under (layout : Layout) (n : ℕ) (e : Entry RecordId) (s : Store) (p : ℕ) (t : Tree n)
    (ks : List (Entry (Tree n))) (s₂ : Store) (child : ℕ × ℕ) : Type 0 where
  pub ready : Ready (suc n) s (p, t, ks)
  pub stored : Stored layout (suc n) s (p, t, ks)
  pub lo : ℕ
  pub hi : ℕ
  pub ordered : IsSearch (suc n) lo hi (p, t, ks)
  pub below : Inserted layout n e (read_page p s) (child_at e.key t ks) s₂ child

-- What is counted once is neither at `p` nor new.
once_old :
    (p r q a b : ℕ)
    → 0 < a
    → a + b ≤ (if p == r then 0 else if ltb r q then 1 else 0)
    → (p ≢ r) × (r < q) × (b ≡ 0)
once_old p r q a b l m = elim (Bool-cases (p == r)) [
  | inl x ↦ absurd (ground arith)
  | inr x ↦ elim (Bool-cases (ltb r q)) [
    | inl y ↦ (ground arith, ground arith, ground arith)
    | inr y ↦ absurd (ground arith)
  ]
]

once_new :
    (p r q q' a b : ℕ)
    → 0 < a
    → a ≤ b + (if (not (ltb r q)) && ltb r q' then 1 else 0)
    → b ≤ (if p == r then 0 else if ltb r q then 1 else 0)
    → p < q
    → q ≤ q'
    → (p ≢ r) × (r < q')
once_new p r q q' a b l m k under next = elim (Bool-cases (ltb r q)) [
  | inl y ↦ (ground arith, ground arith)
  | inr y ↦ (ground arith, ground arith)
]

module _ (layout : Layout) (n : ℕ) (e : Entry RecordId) (s : Store) (p : ℕ) (t : Tree n)
    (ks : List (Entry (Tree n))) where
  pub root_below : Ready (suc n) s (p, t, ks) → p < s.next_page
  root_below ready = elim (Bool-cases (ltb p s.next_page)) [
    | inl l ↦ ground arith
    | inr l ↦ let none = ready.below p (ground arith) in absurd (omega (arith, once_here p))
  ]

  pub child-Ready : Ready (suc n) s (p, t, ks) → Ready n (read_page p s) (child_at e.key t ks)
  unfolding read_page
  child-Ready ready = record {
    once = λ r. omega (arith, ready.once r, child_at-summed (count n r) e.key t ks);
    below = λ r l. omega (arith, ready.below r l, child_at-summed (count n r) e.key t ks);
    positive = ready.positive;
  }

  pub child-Stored :
      Stored layout (suc n) s (p, t, ks) → Stored layout n (read_page p s) (child_at e.key t ks)
  unfolding read_page
  child-Stored stored =
      let there = child_at-AllKids (λ u. Stored layout n s u) e.key t ks stored.1 stored.2 in
      Stored-frame layout n s (read_page p s) (child_at e.key t ks) (λ r l. refl) there

  module _ (s₂ : Store) (child : ℕ × ℕ) (u : Under layout n e s p t ks s₂ child) where
    abbrev pub node : InnerNode
    node = u.stored.0.0

    abbrev pub changed : Tree n × List (Entry (Tree n))
    changed = replace e.key t ks u.below.new u.below.more

    pub next_kept : s.next_page ≤ s₂.next_page
    unfolding read_page
    next_kept = u.below.next

    -- The node itself is as it was.
    pub node_kept : s₂.page p ≡ as_inner node
    unfolding read_page
    node_kept =
        let none : count n p (child_at e.key t ks) ≡ 0 =
          omega (arith, u.ready.once p, child_at-summed (count n p) e.key t ks, once_here p) in
        u.below.kept p none (root_below u.ready) ∙ u.stored.0.1

    pub all_inserted :
        entries n changed.0 ++ joined (entries n) changed.1
        ≡ ordered_insert e (entries (suc n) (p, t, ks))
    all_inserted =
        replace-joined (λ a b v. IsSearch n a b v) (entries n)
          (λ a b v o. IsSearch-InOrder n a b v o) u.lo u.hi e t ks u.below.new u.below.more
          u.ordered u.below.inserted

    pub all_searched :
        (lo hi : ℕ)
        → lo ≤ e.key
        → e.key ≤ hi
        → IsSearch (suc n) lo hi (p, t, ks)
        → IsSearch (suc n) lo hi (p, changed.0, changed.1)
    all_searched lo hi l m o =
        replace-Ranged (λ a b v. IsSearch n a b v) lo hi e.key t ks u.below.new u.below.more l m o
          (λ a b x y z. u.below.searched a b x y z)

    pub all_counted :
        (r : ℕ)
        → count n r changed.0 + summed (count n r) changed.1
          ≤ count n r t + summed (count n r) ks + fresh s s₂ r
    unfolding read_page
    all_counted r =
        omega
          (arith, replace-summed (count n r) e.key t ks u.below.new u.below.more, u.below.counted r)

    -- A page that the node does not hold is as it was.
    pub others_kept :
        (r : ℕ) → count (suc n) r (p, t, ks) ≡ 0 → r < s.next_page → s₂.page r ≡ s.page r
    unfolding read_page
    others_kept r none l =
        u.below.kept r (omega (arith, none, child_at-summed (count n r) e.key t ks)) l

    -- Where in a later state `s₃` only the page of the node and new ones differ, it holds the children.
    module _ (s₃ : Store) (same : (r : ℕ) → p ≢ r → r < s₂.next_page → s₃.page r ≡ s₂.page r) where
      abbrev bound : ℕ → ℕ
      bound r = if p == r then 0 else if ltb r s.next_page then 1 else 0

      in_limit : (r : ℕ) → count n r t + summed (count n r) ks ≤ bound r
      in_limit r = elim (Bool-cases (ltb r s.next_page)) [
        | inl l ↦ let once = u.ready.once r in ground arith
        | inr l ↦ let none = u.ready.below r (ground arith) in ground arith
      ]

      same_new :
          (r : ℕ)
          → 0 < count n r u.below.new + summed (count n r) u.below.more
          → s₃.page r ≡ s₂.page r
      unfolding read_page
      same_new r l =
          let sum = child_at-summed (count n r) e.key t ks in
          let (other, under) =
            once_new p r s.next_page s₂.next_page
              (count n r u.below.new + summed (count n r) u.below.more)
              (count n r (child_at e.key t ks)) l (u.below.counted r)
              (omega (arith, in_limit r, sum)) (root_below u.ready) next_kept in
          same r other under

      same_old :
          (v : Tree n)
          → Stored layout n s v
          → ((r : ℕ) → count n r v + count n r (child_at e.key t ks) ≤ bound r)
          → Stored layout n s₃ v
      unfolding read_page
      same_old v st l =
          Stored-frame layout n s s₃ v
            (λ r pos.
              let (other, old, none) =
                once_old p r s.next_page (count n r v) (count n r (child_at e.key t ks)) pos
                  (l r) in
              same r other (omega (arith, next_kept)) ∙ u.below.kept r none old)
            st

      pub all_kids : Stored layout n s₃ changed.0 × AllKids (λ v. Stored layout n s₃ v) changed.1
      all_kids =
          replace-AllKids (λ v. Stored layout n s v) (λ v. Stored layout n s₃ v) (count n) bound
            u.below.new u.below.more e.key t ks same_old u.stored.1 u.stored.2 in_limit
            (Stored-frame layout n s₂ s₃ u.below.new (λ r l. same_new r (omega arith))
              u.below.stored)
            (AllKids-frame (λ v. Stored layout n s₂ v) (λ v. Stored layout n s₃ v) (count n)
              (λ r. s₃.page r ≡ s₂.page r) u.below.more (λ v f w. Stored-frame layout n s₂ s₃ v f w)
              (λ r l. same_new r (omega arith)) u.below.all_stored)

-- ===== src/Pool/Manager/Pages.antt =====
-- BufMgr::readPage of p2/src/buffer.cpp: what it returns, and the pins that it changes.
use cs564_projects.Prelude.{
  ℕ, ◌+◌, false, none, some, get_or, set, ◌≡◌, refl, sym, ◌∙◌, arith, Option-cases, inl, inr,
  get_or-set_self,
}
use cs564_projects.Pool.Outcome.{Outcome, ok}
use cs564_projects.Pool.HashTable.{Hash}
use cs564_projects.Pool.HashTable.Laws.{view}
use cs564_projects.Pool.Manager.{
  Files, BufMgr, desc, put_desc, no_desc, assign, pin, fetch, read_page, update_desc, alloc_buf,
}
use cs564_projects.Pool.Manager.Sound.{IsSound}
use cs564_projects.Pool.Manager.Alloc.{Allocates, alloc_buf-Allocates}
use cs564_projects.Pool.Manager.Fetch.{installed, Fetches, fetch-Fetches, installed-IsSound}
use cs564_projects.Pool.Manager.Fetch
use cs564_projects.Pool.Manager.Frames.{
  Others, in_use, touched-IsSound, put_desc-Others, installed-Others, lookup_hit, lookup_miss,
}

module _ (P D : Type 0) (h : Hash) (files : Files P D) where
  read_page_hit :
      (f p k : ℕ) (s : BufMgr P D)
      → view h s.hash_table f p ≡ some k
      → read_page P D h files f p s ≡ (ok k, put_desc P D k (pin (desc P D s k)) s)
  unfolding read_page update_desc
  read_page_hit f p k s e = rw (read_page, lookup_hit P D h files f p k s e)

  read_page_miss :
      (f p : ℕ) (s : BufMgr P D)
      → view h s.hash_table f p ≡ none
      → read_page P D h files f p s ≡ fetch P D h files f p s
  unfolding read_page
  read_page_miss f p s e = rw (read_page, lookup_miss P D h files f p s e)

  -- `readPage` has returned frame `i` for the page, with the manager in the state `t`: the page is in
  -- that frame, pinned once more than before; if it was not in the pool, it is as the file gives it.
  pub record Reads (f p : ℕ) (s t : BufMgr P D) (i : ℕ) : Type 0 where
    pub mapped : view h t.hash_table f p ≡ some i
    pub again :
        (k : ℕ)
        → view h s.hash_table f p ≡ some k
        → (i ≡ k) × ((desc P D t i).pin_cnt ≡ (desc P D s k).pin_cnt + 1) × (t.pool ≡ s.pool)
    pub first :
        view h s.hash_table f p ≡ none
        → ((desc P D t i).pin_cnt ≡ 1)
          × ((desc P D t i).dirty ≡ false)
          × (files.read_page f p t.disk ≡ ok (get_or t.pool i files.new_page))
    pub others : Others P D i s t

  pub allocated :
      (s : BufMgr P D) (r : Outcome ℕ × BufMgr P D)
      → IsSound P D h s
      → alloc_buf P D h files s ≡ r
      → Allocates P D h files s r
  allocated s r v run = rw (sym run) (alloc_buf-Allocates P D h files s v)

  Fetches-IsSound :
      (f p : ℕ) (s : BufMgr P D) (r : Outcome ℕ × BufMgr P D)
      → IsSound P D h s
      → view h s.hash_table f p ≡ none
      → Fetches P D h files f p s r
      → IsSound P D h r.1
  Fetches-IsSound f p s _ v absent (Fetch.Fetches.no_frame e t run) = (allocated s _ v run).sound
  Fetches-IsSound f p s _ v absent (Fetch.Fetches.no_page e i t run read) =
      (allocated s _ v run).sound
  Fetches-IsSound f p s _ v absent (Fetch.Fetches.fetched i t page u run read b) =
      let a = allocated s _ v run in
      let (l, free) = a.unused i refl in
      installed-IsSound P D h files f p i page t.disk u t a.sound l free
        (a.spares.absent f p absent) b

  Fetches-Reads :
      (f p i : ℕ) (s : BufMgr P D) (r : Outcome ℕ × BufMgr P D)
      → IsSound P D h s
      → view h s.hash_table f p ≡ none
      → Fetches P D h files f p s r
      → r.0 ≡ ok i
      → Reads f p s r.1 i
  unfolding assign
  Fetches-Reads f p i s _ v absent (Fetch.Fetches.no_frame e t run) o = absurd (cc)
  Fetches-Reads f p i s _ v absent (Fetch.Fetches.no_page e j t run read) o = absurd (cc)
  Fetches-Reads f p i s _ v absent (Fetch.Fetches.fetched j t page u run read b) o =
      let same : i ≡ j = cc in
      let a = allocated s _ v run in
      let (l, free) = a.unused j refl in
      let d = assign f p (desc P D t j) in
      let own = get_or-set_self t.descs j d no_desc (omega (arith, l, a.sound.linked.size)) in
      let own_page =
        get_or-set_self t.pool j page files.new_page (omega (arith, l, a.sound.frames)) in
      rw same (record {
        mapped = b.reads f p ∙ ground arith;
        again = λ k e. absurd (not_both k e);
        first = λ _. (rw own, rw own, rw own_page read);
        others = installed-Others P D h f p j page t.disk u s t a.spares;
      })
    where
      not_both : (k : ℕ) → view h s.hash_table f p ≡ some k → ⊥
      not_both k e = cc

  -- `read_page` keeps a sound manager sound, whatever the files do and however it ends.
  pub read_page-IsSound :
      (f p : ℕ) (s : BufMgr P D) → IsSound P D h s → IsSound P D h (read_page P D h files f p s).1
  unfolding pin
  read_page-IsSound f p s v = elim (Option-cases (view h s.hash_table f p)) [
    | inl e ↦
        rw (read_page_miss f p s e)
          (Fetches-IsSound f p s _ v e (fetch-Fetches P D h files f p s v e))
    | inr (k, e) ↦
        rw (read_page_hit f p k s e)
          (touched-IsSound P D h f p k (pin (desc P D s k)) s v e refl refl refl)
  ]

  -- When `read_page` of a sound manager returns a frame, the table has the page in that frame, pinned
  -- once more than before, or once if it was not in the pool; such a page is clean and is what the file
  -- gives. Pages in other frames that are pinned are as before.
  pub read_page-Reads :
      (f p i : ℕ) (s : BufMgr P D)
      → IsSound P D h s
      → (read_page P D h files f p s).0 ≡ ok i
      → Reads f p s (read_page P D h files f p s).1 i
  unfolding pin
  read_page-Reads f p i s v = elim (Option-cases (view h s.hash_table f p)) [
    | inl e ↦
        rw (read_page_miss f p s e)
          (Fetches-Reads f p i s _ v e (fetch-Fetches P D h files f p s v e))
    | inr (k, e) ↦
        let inside = (in_use P D h f p k s v e).0 in
        let own = get_or-set_self s.descs k (pin (desc P D s k)) no_desc inside in
        rw (read_page_hit f p k s e) (λ o.
          let same : i ≡ k = cc in
          rw same (record {
            mapped = e;
            again = λ k' e'. (some_eq k k' (sym e ∙ e'), hit k k' e e' own, refl);
            first = λ absent. absurd (none_some k (sym absent ∙ e));
            others = put_desc-Others P D h k (pin (desc P D s k)) s;
          }))
  ]
    where
      some_eq : (x y : ℕ) → some x ≡ some y → x ≡ y
      some_eq x y e = cc

      none_some : (x : ℕ) → none ≡ some x → ⊥
      none_some x e = cc

      hit :
          (k k' : ℕ)
          → view h s.hash_table f p ≡ some k
          → view h s.hash_table f p ≡ some k'
          → get_or (set s.descs k (pin (desc P D s k))) k no_desc ≡ pin (desc P D s k)
          → (get_or (set s.descs k (pin (desc P D s k))) k no_desc).pin_cnt
            ≡ (desc P D s k').pin_cnt + 1
      hit k k' e e' own = let same = some_eq k' k (sym e' ∙ e) in rw (own, same)

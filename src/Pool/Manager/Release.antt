-- ===== src/Pool/Manager/Release.antt =====
-- BufMgr::unPinPage, allocPage and disposePage of p2/src/buffer.cpp.
use cs564_projects.Prelude.{
  ℕ, ◌+◌, ◌<◌, Bool, true, false, none, some, if◌then◌else◌, get_or, ◌==◌, ◌≡◌, refl, ◌∙◌, arith,
  Bool-cases, Option-cases, inl, inr, get_or-set_self,
}
use cs564_projects.Pool.Outcome.{Outcome, ok, throw, page_not_pinned}
use cs564_projects.Pool.HashTable.{Hash}
use cs564_projects.Pool.HashTable.Laws.{view}
use cs564_projects.Pool.Manager.{
  Files, BufMgr, desc, put_desc, no_desc, assign, unpin, read_page, un_pin_page, alloc_page,
  update_desc,
}
use cs564_projects.Pool.Manager.Sound.{IsSound, moved-IsSound}
use cs564_projects.Pool.Manager.Fetch.{installed-IsSound, filled-IsSound}
use cs564_projects.Pool.Manager.Obtain.{Obtains, alloc_page-Obtains}
use cs564_projects.Pool.Manager.Obtain
use cs564_projects.Pool.Manager.Frames.{
  Others, in_use, touched-IsSound, installed-Others, lookup_hit, lookup_miss,
}
use cs564_projects.Pool.Manager.Pages.{allocated, read_page-IsSound, read_page-Reads}

module _ (P D : Type 0) (h : Hash) (files : Files P D) where
  un_pin_absent :
      (f p : ℕ) (dirty : Bool) (s : BufMgr P D)
      → view h s.hash_table f p ≡ none
      → un_pin_page P D h files f p dirty s ≡ (ok tt, s)
  unfolding un_pin_page
  un_pin_absent f p dirty s e = rw (un_pin_page, lookup_miss P D h files f p s e)

  un_pin_unpinned :
      (f p k : ℕ) (dirty : Bool) (s : BufMgr P D)
      → view h s.hash_table f p ≡ some k
      → (desc P D s k).pin_cnt ≡ 0
      → un_pin_page P D h files f p dirty s ≡ (throw page_not_pinned, s)
  unfolding un_pin_page
  un_pin_unpinned f p k dirty s e z = rw (un_pin_page, lookup_hit P D h files f p k s e, z)

  un_pin_pinned :
      (f p k : ℕ) (dirty : Bool) (s : BufMgr P D)
      → view h s.hash_table f p ≡ some k
      → 0 < (desc P D s k).pin_cnt
      → un_pin_page P D h files f p dirty s ≡ (ok tt, put_desc P D k (unpin dirty (desc P D s k)) s)
  unfolding un_pin_page update_desc
  un_pin_pinned f p k dirty s e l =
      let z : ((desc P D s k).pin_cnt == 0) ≡ false = ground arith in
      rw (un_pin_page, lookup_hit P D h files f p k s e, z)

  -- `un_pin_page` keeps a sound manager sound, however it ends.
  pub un_pin_page-IsSound :
      (f p : ℕ) (dirty : Bool) (s : BufMgr P D)
      → IsSound P D h s
      → IsSound P D h (un_pin_page P D h files f p dirty s).1
  unfolding unpin
  un_pin_page-IsSound f p dirty s v = elim (Option-cases (view h s.hash_table f p)) [
    | inl e ↦ rw (un_pin_absent f p dirty s e) v
    | inr (k, e) ↦ elim (Bool-cases ((desc P D s k).pin_cnt == 0)) [
      | inl z ↦ rw (un_pin_unpinned f p k dirty s e (ground arith)) v
      | inr z ↦
          rw (un_pin_pinned f p k dirty s e (ground arith))
            (touched-IsSound P D h f p k (unpin dirty (desc P D s k)) s v e refl refl refl)
    ]
  ]

  -- The pins of a page, none if it is not in the pool.
  abbrev pub pins : ℕ → ℕ → BufMgr P D → ℕ
  pins f p s = elim (view h s.hash_table f p) [ none ↦ 0 | some k ↦ (desc P D s k).pin_cnt ]

  pins_mapped :
      (f p k : ℕ) (s : BufMgr P D)
      → view h s.hash_table f p ≡ some k
      → pins f p s ≡ (desc P D s k).pin_cnt
  pins_mapped f p k s e = rw (pins, e)

  -- After `read_page` of a sound manager has returned a frame for a page, `un_pin_page` of the page
  -- returns, and the page has the pins that it had before the two; the frame is dirty if `un_pin_page`
  -- was told so, and otherwise as dirty as `read_page` left it.
  pub un_pin_page-read_page :
      (f p i : ℕ) (dirty : Bool) (s : BufMgr P D)
      → IsSound P D h s
      → (read_page P D h files f p s).0 ≡ ok i
      → let t = (read_page P D h files f p s).1 in
        let r = un_pin_page P D h files f p dirty t in
        (r.0 ≡ ok tt)
        × (pins f p r.1 ≡ pins f p s)
        × ((desc P D r.1 i).dirty ≡ (if dirty then true else (desc P D t i).dirty))
  unfolding unpin
  un_pin_page-read_page f p i dirty s v o =
      let t = (read_page P D h files f p s).1 in
      let w = read_page-IsSound P D h files f p s v in
      let reads = read_page-Reads P D h files f p i s v o in
      let count : (desc P D t i).pin_cnt ≡ pins f p s + 1 =
        elim (Option-cases (view h s.hash_table f p)) [
          | inl e ↦ rw (pins, e) (reads.first e).0
          | inr (k, e) ↦ rw (pins, e) (reads.again k e).1
        ] in
      let own =
        get_or-set_self t.descs i (unpin dirty (desc P D t i)) no_desc
          (in_use P D h f p i t w reads.mapped).0 in
      rw (un_pin_pinned f p i dirty t reads.mapped (omega (arith, count))) (
        refl,
        pins_mapped f p i (put_desc P D i (unpin dirty (desc P D t i)) t) reads.mapped
            ∙ rw own (omega (arith, count)),
        rw own,
      )

  -- `allocPage` has returned a page's number `n` and its frame `i`, with the manager in the state `t`:
  -- the page is in that frame, clean and pinned once, as the file gave it, and was in none before.
  pub record Allots (f : ℕ) (s t : BufMgr P D) (n i : ℕ) : Type 0 where
    pub mapped : view h t.hash_table f n ≡ some i
    pub once : (desc P D t i).pin_cnt ≡ 1
    pub clean : (desc P D t i).dirty ≡ false
    pub number : files.page_number (get_or t.pool i files.new_page) ≡ n
    pub others : Others P D i s t

  Obtains-IsSound :
      (f : ℕ) (s : BufMgr P D) (r : Outcome (ℕ × ℕ) × BufMgr P D)
      → IsSound P D h s
      → Obtains P D h files f s r
      → IsSound P D h r.1
  Obtains-IsSound f s _ v (Obtain.Obtains.no_frame e t run) =
      (allocated P D h files s _ v run).sound
  Obtains-IsSound f s _ v (Obtain.Obtains.no_page e i t d run got) =
      let w = (allocated P D h files s _ v run).sound in
      moved-IsSound P D h t d t.clock_hand w.hand w
  Obtains-IsSound f s _ v (Obtain.Obtains.present i k t page d run got there) =
      filled-IsSound P D h files i page d t (allocated P D h files s _ v run).sound
  Obtains-IsSound f s _ v (Obtain.Obtains.obtained i t page d u run got absent b) =
      let a = allocated P D h files s _ v run in
      let (l, free) = a.unused i refl in
      installed-IsSound P D h files f (files.page_number page) i page d u t a.sound l free absent b

  -- `alloc_page` keeps a sound manager sound, whatever the files do and however it ends.
  pub alloc_page-IsSound :
      (f : ℕ) (s : BufMgr P D) → IsSound P D h s → IsSound P D h (alloc_page P D h files f s).1
  alloc_page-IsSound f s v = Obtains-IsSound f s _ v (alloc_page-Obtains P D h files f s v)

  Obtains-Allots :
      (f n i : ℕ) (s : BufMgr P D) (r : Outcome (ℕ × ℕ) × BufMgr P D)
      → IsSound P D h s
      → Obtains P D h files f s r
      → r.0 ≡ ok (n, i)
      → Allots f s r.1 n i
  unfolding assign
  Obtains-Allots f n i s _ v (Obtain.Obtains.no_frame e t run) o = absurd (cc)
  Obtains-Allots f n i s _ v (Obtain.Obtains.no_page e j t d run got) o = absurd (cc)
  Obtains-Allots f n i s _ v (Obtain.Obtains.present j k t page d run got there) o = absurd (cc)
  Obtains-Allots f n i s _ v (Obtain.Obtains.obtained j t page d u run got absent b) o =
      let number = files.page_number page in
      let same_frame : i ≡ j = cc in
      let same_number : n ≡ number = cc in
      let a = allocated P D h files s _ v run in
      let (l, free) = a.unused j refl in
      let c = assign f number (desc P D t j) in
      let own = get_or-set_self t.descs j c no_desc (omega (arith, l, a.sound.linked.size)) in
      let own_page =
        get_or-set_self t.pool j page files.new_page (omega (arith, l, a.sound.frames)) in
      rw (same_frame, same_number)
        (record {
          mapped = b.reads f number ∙ ground arith;
          once = rw own;
          clean = rw own;
          number = rw own_page;
          others = installed-Others P D h f number j page d u s t a.spares;
        })

  -- When `alloc_page` of a sound manager returns a page's number and a frame, the table has the page in
  -- that frame, clean and pinned once, and the page in the frame has that number. Pages in other frames
  -- that are pinned are as before.
  pub alloc_page-Allots :
      (f n i : ℕ) (s : BufMgr P D)
      → IsSound P D h s
      → (alloc_page P D h files f s).0 ≡ ok (n, i)
      → Allots f s (alloc_page P D h files f s).1 n i
  alloc_page-Allots f n i s v = Obtains-Allots f n i s _ v (alloc_page-Obtains P D h files f s v)

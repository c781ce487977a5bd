-- ===== src/Pool/Manager/Flush.antt =====
-- The body of the loop of BufMgr::flushFile of p2/src/buffer.cpp.
use cs564_projects.Prelude.{
  ℕ, ◌<◌, Bool, true, false, List, none, some, if◌then◌else◌, get_or, set, ◌==◌, length, ◌≡◌, ◌≢◌,
  refl, ap, sym, ◌∙◌, arith, get_or-set_self, set-set, ltb,
}
use cs564_projects.Pool.Outcome.{
  Outcome, Exception, ok, throw, Method, ◌>>◌, return, bind_ok, bind_throw, bad_buffer, page_pinned,
}
use cs564_projects.Pool.HashTable.{Hash, BufHashTbl, remove}
use cs564_projects.Pool.HashTable.Laws.{view, Becomes, remove-Becomes}
use cs564_projects.Pool.Manager.{
  Files, BufMgr, BufDesc, desc, no_desc, clear, update_desc, on_table, on_disk, write_frame,
  flush_frame,
}
use cs564_projects.Pool.Manager.Sound.{IsSound}
use cs564_projects.Pool.Manager.Evict.{on_table_ok, vacant}

-- The write of a flushed page, and what it leaves in the descriptor.
abbrev pub cleaned : BufDesc → BufDesc
cleaned d = record d { dirty = false }

module _ (P D : Type 0) (h : Hash) (files : Files P D) (f i : ℕ) where
  abbrev pub FlushThrows : BufMgr P D → Exception → Type 0
  FlushThrows s e = (files.write_page f (get_or s.pool i files.new_page) s.disk).0 ≡ throw e

  -- How the body ends for frame `i`.
  pub data Flushes (s : BufMgr P D) : Outcome (Unit {0}) × BufMgr P D → Type 0 where
    elsewhere : (desc P D s i).file ≢ f → Flushes s (ok tt, s)
    bad : (desc P D s i).file ≡ f → (desc P D s i).valid ≡ false → Flushes s (throw bad_buffer, s)
    in_use :
        (desc P D s i).file ≡ f
        → (desc P D s i).valid ≡ true
        → 0 < (desc P D s i).pin_cnt
        → Flushes s (throw page_pinned, s)
    failed : (e : Exception) (d : D) → FlushThrows s e → Flushes s (throw e, record s { disk = d })
    flushed :
        (d : D) (u : BufHashTbl)
        → (desc P D s i).file ≡ f
        → (desc P D s i).valid ≡ true
        → (desc P D s i).pin_cnt ≡ 0
        → Becomes h s.hash_table f (desc P D s i).page_no none u
        → Flushes s (ok tt, vacant P D h files i d u s)

  data Prepares (s : BufMgr P D) : Outcome (Unit {0}) × BufMgr P D → Type 0 where
    halted : (e : Exception) (d : D) → FlushThrows s e → Prepares s (throw e, record s { disk = d })
    ready :
        (d : D) (ds : List BufDesc)
        → set ds i (clear (get_or ds i no_desc)) ≡ set s.descs i (clear (desc P D s i))
        → Prepares s (ok tt, record s { disk = d; descs = ds })

  abbrev write_and_clean : Method (BufMgr P D) (Unit {0})
  write_and_clean = write_frame P D h files f i >> update_desc P D h files i cleaned

  write_run :
      (s : BufMgr P D) (r : Outcome (Unit {0}) × D)
      → files.write_page f (get_or s.pool i files.new_page) s.disk ≡ r
      → write_frame P D h files f i s ≡ (r.0, record s { disk = r.1 })
  unfolding write_frame on_disk
  write_run s r e = ap (λ x. (x.0, record s { disk = x.1 })) e

  written :
      (s : BufMgr P D) (r : Outcome (Unit {0}) × D)
      → i < length s.descs
      → files.write_page f (get_or s.pool i files.new_page) s.disk ≡ r
      → Prepares s (write_and_clean s)
  unfolding update_desc clear
  written s (throw e, d) l run =
      rw
        (bind_throw (write_frame P D h files f i) (λ _. update_desc P D h files i cleaned) s
          (record s { disk = d }) e (write_run s (throw e, d) run))
        (halted e d (ap (λ x. x.0) run))
  written s (ok x, d) l run =
      rw
        (bind_ok (write_frame P D h files f i) (λ _. update_desc P D h files i cleaned) s
          (record s { disk = d }) x (write_run s (ok x, d) run))
        (ready d (set s.descs i (cleaned (desc P D s i))) (
          rw (get_or-set_self s.descs i (cleaned (desc P D s i)) no_desc l)
            (set-set s.descs i (cleaned (desc P D s i)) (clear (desc P D s i)))))

  prepared :
      (b : Bool) (s : BufMgr P D)
      → i < length s.descs
      → Prepares s ((if b then write_and_clean else return tt) s)
  prepared true s l = written s _ l refl
  prepared false s l = ready s.disk s.descs refl

  finish :
      (s : BufMgr P D) (r : Outcome (Unit {0}) × BufMgr P D)
      (first : Method (BufMgr P D) (Unit {0}))
      → IsSound P D h s
      → (desc P D s i).file ≡ f
      → (desc P D s i).valid ≡ true
      → (desc P D s i).pin_cnt ≡ 0
      → first s ≡ r
      → Prepares s r
      → Flushes s (
          (first
              >> on_table P D h files (λ t. remove h t f (desc P D s i).page_no)
              >> update_desc P D h files i clear)
            s)
  unfolding update_desc
  finish s _ first v file used free run (halted e d why) =
      let rest =
        on_table P D h files (λ t. remove h t f (desc P D s i).page_no)
        >> update_desc P D h files i clear in
      rw (bind_throw first (λ _. rest) s (record s { disk = d }) e run) (failed e d why)
  finish s _ first v file used free run (ready d ds same) =
      let p = (desc P D s i).page_no in
      let listed : view h s.hash_table f p ≡ some i = rw (sym file) (v.linked.listed i used) in
      let (u, removed, b) = remove-Becomes h s.hash_table f p i v.linked.table listed in
      let t = record s { disk = d; descs = ds } in
      let tail = update_desc P D h files i clear in
      let rest = on_table P D h files (λ t. remove h t f p) >> tail in
      rw
        (
          bind_ok first (λ _. rest) s t tt run
              ∙ on_table_ok P D h files (λ t. remove h t f p) tail t u removed,
          same,
        )
        (flushed d u file used free b)

  by_tests :
      (s : BufMgr P D) (mine valid pinned : Bool) (w x y z : Outcome (Unit {0}) × BufMgr P D)
      → (mine ≡ false → Flushes s w)
      → (mine ≡ true → valid ≡ false → Flushes s x)
      → (mine ≡ true → valid ≡ true → pinned ≡ true → Flushes s y)
      → (mine ≡ true → valid ≡ true → pinned ≡ false → Flushes s z)
      → Flushes s (if mine then (if valid then (if pinned then y else z) else x) else w)
  by_tests s false valid pinned w x y z a b c d = a refl
  by_tests s true false pinned w x y z a b c d = b refl refl
  by_tests s true true true w x y z a b c d = c refl refl refl
  by_tests s true true false w x y z a b c d = d refl refl refl

  pub flush_frame-Flushes :
      (s : BufMgr P D)
      → IsSound P D h s
      → i < s.num_bufs
      → Flushes s (flush_frame P D h files f i s)
  unfolding flush_frame
  flush_frame-Flushes s v l =
      let d = desc P D s i in
      by_tests s (d.file == f) d.valid (ltb 0 d.pin_cnt) (ok tt, s) (throw bad_buffer, s)
        (throw page_pinned, s) _ (λ m. elsewhere (ground arith)) (λ m e. bad (ground arith) e)
        (λ m e p. in_use (ground arith) e (ground arith))
        (λ m e p.
          finish s _ (if d.dirty then write_and_clean else return tt) v (ground arith) e
            (ground arith) refl (prepared d.dirty s (omega (arith, v.linked.size))))

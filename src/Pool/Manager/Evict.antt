-- ===== src/Pool/Manager/Evict.antt =====
-- The eviction of a page by BufMgr::allocBuf of p2/src/buffer.cpp.
use cs564_projects.Prelude.{
  ℕ, ◌<◌, Bool, true, false, none, if◌then◌else◌, get_or, set, ◌≡◌, ◌≢◌, refl, ap, ◌∙◌, arith,
  get_or-set_ne,
}
use cs564_projects.Pool.Outcome.{
  Outcome, Exception, ok, throw, Method, ◌>>◌, return, bind_ok, bind_throw,
}
use cs564_projects.Pool.HashTable.{Hash, BufHashTbl, remove}
use cs564_projects.Pool.HashTable.Laws.{Becomes, remove-Becomes}
use cs564_projects.Pool.Manager.{
  Files, BufMgr, no_desc, desc, clear, write_frame, on_disk, on_table, update_desc, evict,
}
use cs564_projects.Pool.Manager.Linked.{drop-Linked}
use cs564_projects.Pool.Manager.Sound.{IsSound, Spares}

module _ (P D : Type 0) (h : Hash) (files : Files P D) where
  -- The write of the page in frame `i` throws.
  abbrev pub WriteThrows : BufMgr P D → ℕ → Exception → Type 0
  WriteThrows s i e =
      (files.write_page (desc P D s i).file (get_or s.pool i files.new_page) s.disk).0 ≡ throw e

  -- How an eviction ends: the write to the file throws, or the page is gone and the frame is clear.
  pub data Evicts (s : BufMgr P D) (i : ℕ) : Outcome (Unit {0}) × BufMgr P D → Type 0 where
    failed :
        (e : Exception) (d : D) → WriteThrows s i e → Evicts s i (throw e, record s { disk = d })
    freed :
        (d : D) (u : BufHashTbl)
        → Becomes h s.hash_table (desc P D s i).file (desc P D s i).page_no none u
        → Evicts s i (
          ok tt,
          record s { disk = d; hash_table = u; descs = set s.descs i (clear (desc P D s i)) },
        )

  -- The write before an eviction changes the disk alone.
  pub write_if_dirty :
      (b : Bool) (i : ℕ) (s : BufMgr P D)
      → (o : Outcome (Unit {0})) × (d : D) × ((if b
              then write_frame P D h files (desc P D s i).file i
              else return tt)
            s
          ≡ (o, record s { disk = d }))
        × ((e : Exception) → o ≡ throw e → WriteThrows s i e)
  unfolding write_frame on_disk
  write_if_dirty true i s = (_, _, refl, λ e thrown. thrown)
  write_if_dirty false i s = (ok tt, s.disk, refl, λ e thrown. absurd (cc))

  -- A change of the hash table that succeeds, and what follows it.
  pub on_table_ok :
      {A : Type 0} (f : BufHashTbl → Outcome BufHashTbl) (rest : Method (BufMgr P D) A)
      (s : BufMgr P D) (u : BufHashTbl)
      → f s.hash_table ≡ ok u
      → (on_table P D h files f >> rest) s ≡ rest (record s { hash_table = u })
  unfolding on_table
  on_table_ok f rest s u e =
      bind_ok (on_table P D h files f) (λ _. rest) s (record s { hash_table = u }) tt changed
    where
      changed : on_table P D h files f s ≡ (ok tt, record s { hash_table = u })
      changed = rw (on_table, e)

  pub on_table_throw :
      {A : Type 0} (f : BufHashTbl → Outcome BufHashTbl) (rest : Method (BufMgr P D) A)
      (s : BufMgr P D) (e : Exception)
      → f s.hash_table ≡ throw e
      → (on_table P D h files f >> rest) s ≡ (throw e, s)
  unfolding on_table
  on_table_throw f rest s e run = bind_throw (on_table P D h files f) (λ _. rest) s s e thrown
    where
      thrown : on_table P D h files f s ≡ (throw e, s)
      thrown = rw (on_table, run)

  after_write :
      (s : BufMgr P D) (i : ℕ) (write : Method (BufMgr P D) Unit) (o : Outcome (Unit {0}))
      (disk : D)
      → IsSound P D h s
      → (desc P D s i).valid ≡ true
      → write s ≡ (o, record s { disk = disk })
      → ((e : Exception) → o ≡ throw e → WriteThrows s i e)
      → Evicts s i (
          (write
              >> on_table P D h files (λ t. remove h t (desc P D s i).file (desc P D s i).page_no)
              >> update_desc P D h files i clear)
            s)
  unfolding update_desc
  after_write s i write (throw e) disk v used wrote why =
      let rest =
        on_table P D h files (λ t. remove h t (desc P D s i).file (desc P D s i).page_no)
        >> update_desc P D h files i clear in
      let run = bind_throw write (λ _. rest) s (record s { disk = disk }) e wrote in
      rw run (failed e disk (why e refl))
  after_write s i write (ok x) disk v used wrote why =
      let d = desc P D s i in
      let remove_page : BufHashTbl → Outcome BufHashTbl = λ t. remove h t d.file d.page_no in
      let rest = on_table P D h files remove_page >> update_desc P D h files i clear in
      let (u, removed, b) =
        remove-Becomes h s.hash_table d.file d.page_no i v.linked.table (v.linked.listed i used) in
      let run = bind_ok write (λ _. rest) s (record s { disk = disk }) x wrote in
      let run' =
        on_table_ok remove_page (update_desc P D h files i clear) (record s { disk = disk }) u
          removed in
      rw (run ∙ run') (freed disk u b)

  pub evict-Evicts :
      (s : BufMgr P D) (i : ℕ)
      → IsSound P D h s
      → (desc P D s i).valid ≡ true
      → Evicts s i (evict P D h files i s)
  unfolding evict
  evict-Evicts s i v used =
      let d = desc P D s i in
      let (o, disk, wrote, why) = write_if_dirty d.dirty i s in
      after_write s i (if d.dirty then write_frame P D h files d.file i else return tt) o disk v
        used wrote why

  -- Frame `i` is cleared, its page gone from the table, after a change of the disk.
  abbrev pub vacant : ℕ → D → BufHashTbl → BufMgr P D → BufMgr P D
  vacant i d u s = record s {
    disk = d;
    hash_table = u;
    descs = set s.descs i (clear (desc P D s i));
  }

  pub vacant-IsSound :
      (s : BufMgr P D) (i : ℕ) (d : D) (u : BufHashTbl)
      → IsSound P D h s
      → (desc P D s i).valid ≡ true
      → Becomes h s.hash_table (desc P D s i).file (desc P D s i).page_no none u
      → IsSound P D h (vacant i d u s)
  vacant-IsSound s i d u v used b = record {
    some_bufs = v.some_bufs;
    hand = v.hand;
    frames = v.frames;
    linked = drop-Linked h s.num_bufs s.hash_table s.descs v.linked i u used b;
  }

  -- An eviction keeps the manager sound and, if nobody uses the page, spares the pinned ones.
  pub Evicts-IsSound :
      (s : BufMgr P D) (i : ℕ) (r : Outcome (Unit {0}) × BufMgr P D)
      → IsSound P D h s
      → (desc P D s i).valid ≡ true
      → Evicts s i r
      → IsSound P D h r.1
  Evicts-IsSound s i _ v used (failed e d _) = record {
    some_bufs = v.some_bufs;
    hand = v.hand;
    frames = v.frames;
    linked = v.linked;
  }
  Evicts-IsSound s i _ v used (freed d u b) = vacant-IsSound s i d u v used b

  pub Evicts-Spares :
      (s : BufMgr P D) (i : ℕ) (r : Outcome (Unit {0}) × BufMgr P D)
      → (desc P D s i).pin_cnt ≡ 0
      → Evicts s i r
      → Spares P D h s r.1
  Evicts-Spares s i _ unpinned (failed e d _) = record {
    bufs = refl;
    pool = refl;
    absent = λ f p e. e;
    pinned = λ j v p. (v, refl, refl, refl, refl);
  }
  Evicts-Spares s i _ unpinned (freed d u b) = record {
    bufs = refl;
    pool = refl;
    absent = λ f p e. b.reads f p ∙ ground (arith, e);
    pinned = λ j v p.
        let other : i ≢ j = λ same. pinned_twice j same p in
        rw (get_or-set_ne s.descs i j (clear (desc P D s i)) no_desc other)
          (v, refl, refl, refl, refl);
  }
    where
      pinned_twice : (j : ℕ) → i ≡ j → 0 < (desc P D s j).pin_cnt → ⊥
      pinned_twice j same p =
          let e : (desc P D s i).pin_cnt ≡ (desc P D s j).pin_cnt =
            ap (λ k. (desc P D s k).pin_cnt) same in
          omega arith

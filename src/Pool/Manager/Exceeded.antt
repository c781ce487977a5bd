-- ===== src/Pool/Manager/Exceeded.antt =====
-- BufMgr::allocBuf of p2/src/buffer.cpp when every frame holds a pinned page.
use cs564_projects.Prelude.{
  ℕ, zero, suc, ◌+◌, ◌*◌, ◌<◌, ◌%◌, Bool, true, false, ltb, ◌==◌, length, ◌≡◌, refl, ◌∙◌, arith,
  Bool-cases, inl, inr, get_or-set_self, get_or-set_ne,
}
use cs564_projects.Pool.Outcome.{Outcome, ok, throw, buffer_exceeded}
use cs564_projects.Pool.HashTable.{Hash}
use cs564_projects.Pool.Manager.{
  Files, BufMgr, desc, visit, advance_clock, alloc_loop, alloc_buf, no_desc,
}
use cs564_projects.Pool.Manager.Sound.{IsSound}
use cs564_projects.Pool.Manager.Visit.{
  here, unreferenced, Visits, found, dereferenced, passed, evicted, stopped, visit-Visits,
}
use cs564_projects.Pool.Manager.Rounds.{Visits-IsSound, advance_clock-IsSound, inside}
use cs564_projects.Pool.Manager.Clock.{left, left-step}
use cs564_projects.Pool.Manager.Alloc.{count, after, alloc_loop-after, alloc_loop_ended}

module _ (P D : Type 0) where
  -- Every frame holds a page that somebody uses.
  abbrev pub AllPinned : BufMgr P D → Type 0
  AllPinned s =
      (k : ℕ) → k < s.num_bufs → ((desc P D s k).valid ≡ true) × (0 < (desc P D s k).pin_cnt)

  -- The pages, their frames and the disk are the same.
  pub record Unchanged (s t : BufMgr P D) : Type 0 where
    pub bufs : t.num_bufs ≡ s.num_bufs
    pub table : t.hash_table ≡ s.hash_table
    pub pool : t.pool ≡ s.pool
    pub disk : t.disk ≡ s.disk

  Unchanged-trans : (s t u : BufMgr P D) → Unchanged s t → Unchanged t u → Unchanged s u
  Unchanged-trans s t u a b = record {
    bufs = b.bufs ∙ a.bufs;
    table = b.table ∙ a.table;
    pool = b.pool ∙ a.pool;
    disk = b.disk ∙ a.disk;
  }

  unreferenced-AllPinned :
      (s : BufMgr P D)
      → s.clock_hand < length s.descs
      → AllPinned s
      → AllPinned (unreferenced P D s)
  unreferenced-AllPinned s i all k l = elim (Bool-cases (s.clock_hand == k)) [
    | inl e ↦
        let same : k ≡ s.clock_hand = ground arith in
        let own = all s.clock_hand (omega arith) in
        rw
          (
            same,
            get_or-set_self s.descs s.clock_hand (record (here P D s) { refbit = false }) no_desc i,
          )
          own
    | inr e ↦
        rw
          (get_or-set_ne s.descs s.clock_hand k (record (here P D s) { refbit = false }) no_desc
            (ground arith))
          (all k l)
  ]

module _ (P D : Type 0) (h : Hash) (files : Files P D) where
  -- A round goes on with the next frame.
  record GoesOn (s : BufMgr P D) (r : Outcome Bool × BufMgr P D) : Type 0 where
    goes_on : r.0 ≡ ok false
    hand : r.1.clock_hand ≡ (s.clock_hand + 1) % s.num_bufs
    same : Unchanged P D s r.1
    pinned : AllPinned P D r.1

  Visits-GoesOn :
      (s : BufMgr P D) (r : Outcome Bool × BufMgr P D)
      → IsSound P D h s
      → AllPinned P D s
      → Visits P D h files s r
      → GoesOn s r
  unfolding advance_clock
  Visits-GoesOn s _ v all (found free) = let own = (all s.clock_hand v.hand).0 in absurd (cc)
  Visits-GoesOn s _ v all (dereferenced used _) = record {
    goes_on = refl;
    hand = refl;
    same = record { bufs = refl; table = refl; pool = refl; disk = refl };
    pinned = unreferenced-AllPinned P D s (inside P D h s v) all;
  }
  Visits-GoesOn s _ v all (passed used p) = record {
    goes_on = refl;
    hand = refl;
    same = record { bufs = refl; table = refl; pool = refl; disk = refl };
    pinned = all;
  }
  Visits-GoesOn s _ v all (evicted d u used free b) =
      let own = (all s.clock_hand v.hand).1 in absurd (omega arith)
  Visits-GoesOn s _ v all (stopped e d used free why) =
      let own = (all s.clock_hand v.hand).1 in absurd (omega arith)

  abbrev Exceeds : BufMgr P D → Outcome ℕ × BufMgr P D → Type 0
  Exceeds s r = (r.0 ≡ throw buffer_exceeded) × Unchanged P D s r.1

  after-Exceeds :
      (fuel loop start : ℕ) (s : BufMgr P D) (r : Outcome Bool × BufMgr P D)
      → GoesOn s r
      → Exceeds r.1 (alloc_loop P D h files fuel loop start r.1)
      → Exceeds s (after P D h files fuel loop start r)
  after-Exceeds fuel loop start s (ok false, t) g (e, same) =
      (e, Unchanged-trans P D s t _ g.same same)
  after-Exceeds fuel loop start s (ok true, t) g x = let e = g.goes_on in absurd (cc)
  after-Exceeds fuel loop start s (throw e, t) g x = let e = g.goes_on in absurd (cc)

  alloc_loop-Exceeds :
      (fuel loop start : ℕ) (s : BufMgr P D)
      → IsSound P D h s
      → AllPinned P D s
      → start < s.num_bufs
      → left s.num_bufs start loop s.clock_hand < fuel
      → Exceeds s (alloc_loop P D h files fuel loop start s)
  alloc_loop-Exceeds zero loop start s v all k l = absurd (omega arith)
  alloc_loop-Exceeds (suc fuel) loop start s v all k l = elim (Bool-cases (ltb loop 3)) [
    | inr e ↦
        rw (alloc_loop_ended P D h files fuel loop start s (ground arith))
          (refl, record { bufs = refl; table = refl; pool = refl; disk = refl })
    | inl e ↦
        let r = visit P D h files s in
        let visits = visit-Visits P D h files s v in
        let g = Visits-GoesOn s r v all visits in
        let step = left-step s.num_bufs start loop s.clock_hand (ground arith) v.hand k in
        let less : left r.1.num_bufs start (count P D h files loop start s) r.1.clock_hand < fuel =
          rw (g.hand, g.same.bufs) (omega (arith, step)) in
        rw (alloc_loop-after P D h files fuel loop start s (ground arith)) (
          after-Exceeds fuel (count P D h files loop start s) start s r g (
            alloc_loop-Exceeds fuel (count P D h files loop start s) start r.1
              (Visits-IsSound P D h files s r v visits) g.pinned (omega (arith, g.same.bufs)) less))
  ]

  -- When every frame holds a pinned page, `alloc_buf` of a sound manager throws `buffer_exceeded`, and
  -- leaves the hash table, the pool and the disk as they are.
  pub alloc_buf_exceeded :
      (s : BufMgr P D)
      → IsSound P D h s
      → AllPinned P D s
      → ((alloc_buf P D h files s).0 ≡ throw buffer_exceeded)
        × Unchanged P D s (alloc_buf P D h files s).1
  unfolding alloc_buf advance_clock
  alloc_buf_exceeded s v all =
      let t = advance_clock P D s in
      let w = advance_clock-IsSound P D h s v in
      let enough : left s.num_bufs t.clock_hand 0 t.clock_hand < 2 * s.num_bufs + 2 =
        ground arith in
      let (e, same) =
        alloc_loop-Exceeds (2 * s.num_bufs + 2) 0 t.clock_hand t w all w.hand enough in
      (e, record { bufs = same.bufs; table = same.table; pool = same.pool; disk = same.disk })

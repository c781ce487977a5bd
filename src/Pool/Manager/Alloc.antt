-- ===== src/Pool/Manager/Alloc.antt =====
-- BufMgr::allocBuf of p2/src/buffer.cpp: what it keeps, whatever the files do.
use cs564_projects.Prelude.{
  ℕ, zero, suc, ◌+◌, ◌*◌, ◌≤◌, ◌<◌, Bool, true, false, if◌then◌else◌, ltb, ◌==◌, ◌≡◌, refl, sym,
  arith, Bool-cases, inl, inr,
}
use cs564_projects.Pool.Outcome.{Outcome, Exception, ok, throw, buffer_exceeded}
use cs564_projects.Pool.HashTable.{Hash}
use cs564_projects.Pool.Manager.{Files, BufMgr, desc, visit, advance_clock, alloc_loop, alloc_buf}
use cs564_projects.Pool.Manager.Sound.{IsSound, Spares, Spares-refl, Spares-trans}
use cs564_projects.Pool.Manager.Visit.{Visits, visit-Visits}
use cs564_projects.Pool.Manager.Rounds.{
  Visits-IsSound, Visits-Spares, Visits-valid, advance_clock-IsSound, advance_clock-Spares,
}

module _ (P D : Type 0) (h : Hash) (files : Files P D) where
  abbrev pub count : ℕ → ℕ → BufMgr P D → ℕ
  count loop start s = if start == s.clock_hand then loop + 1 else loop

  -- What follows a round that ended in `r`.
  abbrev pub after : ℕ → ℕ → ℕ → Outcome Bool × BufMgr P D → Outcome ℕ × BufMgr P D
  after fuel loop start r = elim r.0 [
    | throw e ↦ (throw e, r.1)
    | ok b ↦ elim b [
      | true ↦ (ok r.1.clock_hand, r.1)
      | false ↦ alloc_loop P D h files fuel loop start r.1
    ]
  ]

  pub alloc_loop-after :
      (fuel loop start : ℕ) (s : BufMgr P D)
      → loop < 3
      → alloc_loop P D h files (suc fuel) loop start s
        ≡ after fuel (count loop start s) start (visit P D h files s)
  unfolding alloc_loop
  alloc_loop-after fuel loop start s l =
      let e : ltb loop 3 ≡ true = ground arith in rw (alloc_loop, e)

  pub alloc_loop_ended :
      (fuel loop start : ℕ) (s : BufMgr P D)
      → 3 ≤ loop
      → alloc_loop P D h files (suc fuel) loop start s ≡ (throw buffer_exceeded, s)
  unfolding alloc_loop
  alloc_loop_ended fuel loop start s l =
      let e : ltb loop 3 ≡ false = ground arith in rw (alloc_loop, e)

  -- The manager is sound, pinned pages are spared, and a frame that is returned is unused.
  pub record Allocates (s : BufMgr P D) (r : Outcome ℕ × BufMgr P D) : Type 0 where
    pub sound : IsSound P D h r.1
    pub spares : Spares P D h s r.1
    pub unused : (i : ℕ) → r.0 ≡ ok i → (i < r.1.num_bufs) × ((desc P D r.1 i).valid ≡ false)

  Allocates-trans :
      (s t : BufMgr P D) (r : Outcome ℕ × BufMgr P D)
      → Spares P D h s t
      → Allocates t r
      → Allocates s r
  Allocates-trans s t r a b = record {
    sound = b.sound;
    spares = Spares-trans P D h s t r.1 a b.spares;
    unused = b.unused;
  }

  ended-Allocates : (s : BufMgr P D) (e : Exception) → IsSound P D h s → Allocates s (throw e, s)
  ended-Allocates s e v = record {
    sound = v;
    spares = Spares-refl P D h s;
    unused = λ i f. absurd (cc);
  }

  after-Allocates :
      (fuel loop start : ℕ) (s : BufMgr P D) (r : Outcome Bool × BufMgr P D)
      → IsSound P D h s
      → Visits P D h files s r
      → ((t : BufMgr P D)
          → IsSound P D h t
          → Allocates t (alloc_loop P D h files fuel loop start t))
      → Allocates s (after fuel loop start r)
  after-Allocates fuel loop start s (throw e, t) v r next =
      Allocates-trans s t (throw e, t) (Visits-Spares P D h files s _ v r)
        (ended-Allocates t e (Visits-IsSound P D h files s _ v r))
  after-Allocates fuel loop start s (ok true, t) v r next =
      let w = Visits-IsSound P D h files s _ v r in
      let free = Visits-valid P D h files s _ v r refl in
      record {
        sound = w;
        spares = Visits-Spares P D h files s _ v r;
        unused = λ i e. let same : t.clock_hand ≡ i = cc in rw (sym same) (w.hand, free);
      }
  after-Allocates fuel loop start s (ok false, t) v r next =
      Allocates-trans s t (alloc_loop P D h files fuel loop start t)
        (Visits-Spares P D h files s _ v r) (next t (Visits-IsSound P D h files s _ v r))

  alloc_loop-Allocates :
      (fuel loop start : ℕ) (s : BufMgr P D)
      → IsSound P D h s
      → Allocates s (alloc_loop P D h files fuel loop start s)
  unfolding alloc_loop
  alloc_loop-Allocates zero loop start s v = ended-Allocates s _ v
  alloc_loop-Allocates (suc fuel) loop start s v = elim (Bool-cases (ltb loop 3)) [
    | inl e ↦ rw (alloc_loop-after fuel loop start s (ground arith)) (
        after-Allocates fuel (count loop start s) start s (visit P D h files s) v
          (visit-Visits P D h files s v) (alloc_loop-Allocates fuel (count loop start s) start))
    | inr e ↦
        rw (alloc_loop_ended fuel loop start s (ground arith)) (ended-Allocates s buffer_exceeded v)
  ]

  -- `alloc_buf` keeps a sound manager sound, whatever the files do and however it ends: pinned pages
  -- stay as they are, no page enters the pool, and the frame that it returns holds no page.
  pub alloc_buf-Allocates :
      (s : BufMgr P D) → IsSound P D h s → Allocates s (alloc_buf P D h files s)
  unfolding alloc_buf
  alloc_buf-Allocates s v =
      let t = advance_clock P D s in
      Allocates-trans s t (alloc_loop P D h files (2 * s.num_bufs + 2) 0 t.clock_hand t)
        (advance_clock-Spares P D h s)
        (alloc_loop-Allocates (2 * s.num_bufs + 2) 0 t.clock_hand t
          (advance_clock-IsSound P D h s v))

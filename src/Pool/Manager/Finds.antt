-- ===== src/Pool/Manager/Finds.antt =====
-- BufMgr::allocBuf of p2/src/buffer.cpp when some frame is not in use.
use cs564_projects.Prelude.{
  ℕ, zero, suc, ◌+◌, ◌*◌, ◌<◌, ◌%◌, Bool, true, false, if◌then◌else◌, ltb, ◌==◌, length, ◌≡◌, ◌≢◌,
  ◌⊎◌, refl, ap, sym, ◌∙◌, arith, Bool-cases, inl, inr, get_or-set_self, get_or-set_ne,
}
use cs564_projects.Pool.Outcome.{Outcome, Exception, ok, throw}
use cs564_projects.Pool.HashTable.{Hash}
use cs564_projects.Pool.Manager.{
  Files, BufMgr, desc, visit, advance_clock, alloc_loop, alloc_buf, no_desc,
}
use cs564_projects.Pool.Manager.Sound.{IsSound}
use cs564_projects.Pool.Manager.Visit.{
  here, unreferenced, Visits, found, dereferenced, passed, evicted, stopped, visit-Visits,
}
use cs564_projects.Pool.Manager.Rounds.{Visits-IsSound, advance_clock-IsSound, inside}
use cs564_projects.Pool.Manager.Clock.{left, left-step, gap, gap-step, gap-turn}
use cs564_projects.Pool.Manager.Alloc.{count, after, alloc_loop-after}

module _ (P D : Type 0) (g : ℕ) where
  -- Frame `g` is unused, or nobody uses its page.
  pub record IsFree (s : BufMgr P D) : Type 0 where
    pub frame : g < s.num_bufs
    pub unpinned : (desc P D s g).valid ≡ true → (desc P D s g).pin_cnt ≡ 0

  -- The rounds up to the one that returns frame `g`, if none returns another.
  abbrev wait : BufMgr P D → ℕ
  wait s = gap s.num_bufs s.clock_hand g + (if (desc P D s g).refbit then s.num_bufs else 0)

  -- A round goes on with the next frame, one round less from frame `g`.
  record Nears (s t : BufMgr P D) : Type 0 where
    hand : t.clock_hand ≡ (s.clock_hand + 1) % s.num_bufs
    bufs : t.num_bufs ≡ s.num_bufs
    free : IsFree t
    nearer : wait t < wait s

  passed-Nears :
      (s : BufMgr P D)
      → s.clock_hand < s.num_bufs
      → IsFree s
      → g ≢ s.clock_hand
      → Nears s (advance_clock P D s)
  unfolding advance_clock
  passed-Nears s l free ne = record {
    hand = refl;
    bufs = refl;
    free = record { frame = free.frame; unpinned = free.unpinned };
    nearer = let step = gap-step s.num_bufs s.clock_hand g l free.frame ne in omega arith;
  }

  dereferenced-Nears :
      (s : BufMgr P D)
      → s.clock_hand < s.num_bufs
      → s.clock_hand < length s.descs
      → IsFree s
      → (here P D s).refbit ≡ true
      → Nears s (advance_clock P D (unreferenced P D s))
  unfolding advance_clock
  dereferenced-Nears s l i free referenced = elim (Bool-cases (g == s.clock_hand)) [
    | inl e ↦
        let same : g ≡ s.clock_hand = ground arith in
        let own =
          get_or-set_self s.descs s.clock_hand (record (here P D s) { refbit = false }) no_desc i in
        let turn = gap-turn s.num_bufs s.clock_hand l in
        record {
          hand = refl;
          bufs = refl;
          free = record {
            frame = free.frame;
            unpinned = rw (same, own) (rw (sym same) free.unpinned);
          };
          nearer = rw (same, own, referenced) (ground arith);
        }
    | inr e ↦
        let ne : g ≢ s.clock_hand = ground arith in
        let other =
          get_or-set_ne s.descs s.clock_hand g (record (here P D s) { refbit = false }) no_desc
            (ground arith) in
        let step = gap-step s.num_bufs s.clock_hand g l free.frame ne in
        record {
          hand = refl;
          bufs = refl;
          free = record { frame = free.frame; unpinned = rw other free.unpinned };
          nearer = rw other (omega arith);
        }
  ]

module _ (P D : Type 0) (h : Hash) (files : Files P D) where
  -- A write to a file never throws.
  abbrev pub WritesSucceed : Type 0
  WritesSucceed =
      (file : ℕ) (page : P) (d : D) (e : Exception) → (files.write_page file page d).0 ≢ throw e

  abbrev Ends : ℕ → BufMgr P D → Outcome Bool × BufMgr P D → Type 0
  Ends g s r = (r.0 ≡ ok true) ⊎ ((r.0 ≡ ok false) × Nears P D g s r.1)

  not_here :
      (g : ℕ) (s : BufMgr P D)
      → IsFree P D g s
      → (here P D s).valid ≡ true
      → 0 < (here P D s).pin_cnt
      → g ≢ s.clock_hand
  not_here g s free used p same =
      let valid = ap (λ k. (desc P D s k).valid) same in
      let pins = ap (λ k. (desc P D s k).pin_cnt) same in
      let unpinned = free.unpinned (valid ∙ used) in omega arith

  Visits-Ends :
      (g : ℕ) (s : BufMgr P D) (r : Outcome Bool × BufMgr P D)
      → WritesSucceed
      → IsSound P D h s
      → IsFree P D g s
      → Visits P D h files s r
      → Ends g s r
  Visits-Ends g s _ writes v free (found _) = inl refl
  Visits-Ends g s _ writes v free (dereferenced _ referenced) =
      inr (refl, dereferenced-Nears P D g s v.hand (inside P D h s v) free referenced)
  Visits-Ends g s _ writes v free (passed used p) =
      inr (refl, passed-Nears P D g s v.hand free (not_here g s free used p))
  Visits-Ends g s _ writes v free (evicted _ _ _ _ _) = inl refl
  Visits-Ends g s _ writes v free (stopped e _ _ _ why) = absurd (writes _ _ _ e why)

  abbrev Returns : Outcome ℕ × BufMgr P D → Type 0
  Returns r = (i : ℕ) × (r.0 ≡ ok i)

  after-Returns :
      (g fuel loop start : ℕ) (s : BufMgr P D) (r : Outcome Bool × BufMgr P D)
      → Ends g s r
      → (Nears P D g s r.1 → Returns (alloc_loop P D h files fuel loop start r.1))
      → Returns (after P D h files fuel loop start r)
  after-Returns g fuel loop start s (ok true, t) e next = (t.clock_hand, refl)
  after-Returns g fuel loop start s (ok false, t) (inl e) next = absurd (cc)
  after-Returns g fuel loop start s (ok false, t) (inr e) next = next e.1
  after-Returns g fuel loop start s (throw x, t) (inl e) next = absurd (cc)
  after-Returns g fuel loop start s (throw x, t) (inr (e, _)) next = absurd (cc)

  alloc_loop-Returns :
      (g fuel loop start : ℕ) (s : BufMgr P D)
      → WritesSucceed
      → IsSound P D h s
      → IsFree P D g s
      → start < s.num_bufs
      → left s.num_bufs start loop s.clock_hand < fuel
      → wait P D g s < left s.num_bufs start loop s.clock_hand
      → Returns (alloc_loop P D h files fuel loop start s)
  alloc_loop-Returns g zero loop start s writes v free k l w = absurd (omega arith)
  alloc_loop-Returns g (suc fuel) loop start s writes v free k l w =
      elim (Bool-cases (ltb loop 3)) [
        | inr e ↦ absurd (no_rounds e w)
        | inl e ↦
            let r = visit P D h files s in
            let visits = visit-Visits P D h files s v in
            let loop' = count P D h files loop start s in
            let step = left-step s.num_bufs start loop s.clock_hand (ground arith) v.hand k in
            rw (alloc_loop-after P D h files fuel loop start s (ground arith)) (
              after-Returns g fuel loop' start s r (Visits-Ends g s r writes v free visits) (λ n.
                let rest : left r.1.num_bufs start loop' r.1.clock_hand + 1
                    ≡ left s.num_bufs start loop s.clock_hand =
                  rw (n.hand, n.bufs) step in
                alloc_loop-Returns g fuel loop' start r.1 writes
                  (Visits-IsSound P D h files s r v visits) n.free (omega (arith, n.bufs))
                  (omega (arith, rest)) (omega (arith, rest, n.nearer))))
      ]
    where
      no_rounds : ltb loop 3 ≡ false → wait P D g s < left s.num_bufs start loop s.clock_hand → ⊥
      no_rounds e l = ground arith

  -- When some frame is unused or holds a page that nobody uses, and writes to files do not throw,
  -- `alloc_buf` of a sound manager returns a frame.
  pub alloc_buf_returns :
      (g : ℕ) (s : BufMgr P D)
      → WritesSucceed
      → IsSound P D h s
      → IsFree P D g s
      → (i : ℕ) × ((alloc_buf P D h files s).0 ≡ ok i)
  unfolding alloc_buf advance_clock
  alloc_buf_returns g s writes v free =
      let t = advance_clock P D s in
      let w = advance_clock-IsSound P D h s v in
      let free' : IsFree P D g t = record { frame = free.frame; unpinned = free.unpinned } in
      let enough : left s.num_bufs t.clock_hand 0 t.clock_hand < 2 * s.num_bufs + 2 =
        ground arith in
      let soon : wait P D g t < left s.num_bufs t.clock_hand 0 t.clock_hand =
        ground (arith, w.hand, free.frame) in
      alloc_loop-Returns g (2 * s.num_bufs + 2) 0 t.clock_hand t writes w free' w.hand enough soon

-- ===== src/Pool/Manager/Sound.antt =====
-- The invariant of the buffer manager of p2/src/buffer.cpp, what a step may not do to pinned pages, and
-- the eviction of a page.
use cs564_projects.Prelude.{ℕ, ◌<◌, true, none, length, ◌≡◌, refl, ◌∙◌, arith}
use cs564_projects.Pool.HashTable.{Hash}
use cs564_projects.Pool.HashTable.Laws.{view}
use cs564_projects.Pool.Manager.{BufMgr, desc}
use cs564_projects.Pool.Manager.Linked.{Linked}

module _ (P D : Type 0) (h : Hash) where
  pub record IsSound (s : BufMgr P D) : Type 0 where
    pub some_bufs : 0 < s.num_bufs
    pub hand : s.clock_hand < s.num_bufs
    pub frames : length s.pool ≡ s.num_bufs
    pub linked : Linked h s.num_bufs s.hash_table s.descs

  -- Pinned pages stay where they are, as often pinned and as dirty as before; no page enters the pool.
  pub record Spares (s t : BufMgr P D) : Type 0 where
    pub bufs : t.num_bufs ≡ s.num_bufs
    pub pool : t.pool ≡ s.pool
    pub absent : (f p : ℕ) → view h s.hash_table f p ≡ none → view h t.hash_table f p ≡ none
    pub pinned :
        (j : ℕ)
        → (desc P D s j).valid ≡ true
        → 0 < (desc P D s j).pin_cnt
        → ((desc P D t j).valid ≡ true)
          × ((desc P D t j).file ≡ (desc P D s j).file)
          × ((desc P D t j).page_no ≡ (desc P D s j).page_no)
          × ((desc P D t j).pin_cnt ≡ (desc P D s j).pin_cnt)
          × ((desc P D t j).dirty ≡ (desc P D s j).dirty)

  pub Spares-refl : (s : BufMgr P D) → Spares s s
  Spares-refl s = record {
    bufs = refl;
    pool = refl;
    absent = λ f p e. e;
    pinned = λ j v p. (v, refl, refl, refl, refl);
  }

  pub Spares-trans : (s t u : BufMgr P D) → Spares s t → Spares t u → Spares s u
  Spares-trans s t u a b = record {
    bufs = b.bufs ∙ a.bufs;
    pool = b.pool ∙ a.pool;
    absent = λ f p e. b.absent f p (a.absent f p e);
    pinned = λ j v p.
        let x = a.pinned j v p in
        let y = b.pinned j x.0 (omega (arith, x.3)) in
        (y.0, y.1 ∙ x.1, y.2 ∙ x.2, y.3 ∙ x.3, y.4 ∙ x.4);
  }

  -- The disk may change, and the clock hand within the pool.
  pub moved-IsSound :
      (s : BufMgr P D) (d : D) (hand : ℕ)
      → hand < s.num_bufs
      → IsSound s
      → IsSound (record s { disk = d; clock_hand = hand })
  moved-IsSound s d hand l v = record {
    some_bufs = v.some_bufs;
    hand = l;
    frames = v.frames;
    linked = v.linked;
  }

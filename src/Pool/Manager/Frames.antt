-- ===== src/Pool/Manager/Frames.antt =====
-- Changes of one frame of the manager of p2/src/buffer.cpp, and lookups of its table.
use cs564_projects.Prelude.{
  ℕ, ◌<◌, true, none, some, length, ◌≡◌, ◌≢◌, refl, ◌∙◌, arith, get_or-set_ne,
}
use cs564_projects.Pool.Outcome.{ok, throw, hash_not_found}
use cs564_projects.Pool.HashTable.{Hash, BufHashTbl, lookup}
use cs564_projects.Pool.HashTable.Laws.{view, lookup-view}
use cs564_projects.Pool.Manager.{Files, BufMgr, BufDesc, desc, put_desc, no_desc, assign}
use cs564_projects.Pool.Manager.Linked.{touch-Linked}
use cs564_projects.Pool.Manager.Sound.{IsSound, Spares}
use cs564_projects.Pool.Manager.Fetch.{installed}

module _ (P D : Type 0) where
  -- Frames other than `i` that are pinned in `s` have in `t` the same page, pins and dirty bit.
  abbrev pub Others : ℕ → BufMgr P D → BufMgr P D → Type 0
  Others i s t =
      (j : ℕ)
      → i ≢ j
      → (desc P D s j).valid ≡ true
      → 0 < (desc P D s j).pin_cnt
      → ((desc P D t j).valid ≡ true)
        × ((desc P D t j).file ≡ (desc P D s j).file)
        × ((desc P D t j).page_no ≡ (desc P D s j).page_no)
        × ((desc P D t j).pin_cnt ≡ (desc P D s j).pin_cnt)
        × ((desc P D t j).dirty ≡ (desc P D s j).dirty)

module _ (P D : Type 0) (h : Hash) where
  pub in_use :
      (f p k : ℕ) (s : BufMgr P D)
      → IsSound P D h s
      → view h s.hash_table f p ≡ some k
      → (k < length s.descs) × ((desc P D s k).valid ≡ true)
  in_use f p k s v e = let m = v.linked.mapped f p k e in (omega (arith, m.0, v.linked.size), m.1)

  pub touched-IsSound :
      (f p k : ℕ) (d : BufDesc) (s : BufMgr P D)
      → IsSound P D h s
      → view h s.hash_table f p ≡ some k
      → d.valid ≡ (desc P D s k).valid
      → d.file ≡ (desc P D s k).file
      → d.page_no ≡ (desc P D s k).page_no
      → IsSound P D h (put_desc P D k d s)
  touched-IsSound f p k d s v e valid file page =
      let used = (in_use f p k s v e).1 in
      record {
        some_bufs = v.some_bufs;
        hand = v.hand;
        frames = v.frames;
        linked =
            touch-Linked h s.num_bufs s.hash_table s.descs v.linked k d used (valid ∙ used) file
              page;
      }

  pub put_desc-Others : (k : ℕ) (d : BufDesc) (s : BufMgr P D) → Others P D k s (put_desc P D k d s)
  put_desc-Others k d s j ne used p =
      rw (get_or-set_ne s.descs k j d no_desc ne) (used, refl, refl, refl, refl)

  pub installed-Others :
      (f p i : ℕ) (page : P) (d : D) (u : BufHashTbl) (s t : BufMgr P D)
      → Spares P D h s t
      → Others P D i s (installed P D f p i page d u t)
  installed-Others f p i page d u s t a j ne used n =
      rw (get_or-set_ne t.descs i j (assign f p (desc P D t i)) no_desc ne) (a.pinned j used n)

module _ (P D : Type 0) (h : Hash) (files : Files P D) where
  pub lookup_hit :
      (f p k : ℕ) (s : BufMgr P D)
      → view h s.hash_table f p ≡ some k
      → lookup h s.hash_table f p ≡ ok k
  lookup_hit f p k s e = lookup-view h s.hash_table f p ∙ rw e

  pub lookup_miss :
      (f p : ℕ) (s : BufMgr P D)
      → view h s.hash_table f p ≡ none
      → lookup h s.hash_table f p ≡ throw hash_not_found
  lookup_miss f p s e = lookup-view h s.hash_table f p ∙ rw e

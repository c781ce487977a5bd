-- ===== src/Pool/Manager/Fetch.antt =====
-- How BufMgr::readPage of p2/src/buffer.cpp brings a page into the pool.
use cs564_projects.Prelude.{ℕ, ◌<◌, false, none, some, set, length-set, ◌≡◌, refl, ◌∙◌}
use cs564_projects.Pool.Outcome.{
  Outcome, Exception, ok, throw, Method, ◌>>◌, return, bind_ok, bind_throw,
}
use cs564_projects.Pool.HashTable.{Hash, BufHashTbl, insert}
use cs564_projects.Pool.HashTable.Laws.{view, Becomes, insert-Becomes}
use cs564_projects.Pool.Manager.{
  Files, BufMgr, desc, assign, alloc_buf, on_table, update_desc, read_into, put_page, fetch,
}
use cs564_projects.Pool.Manager.Install.{install-Linked}
use cs564_projects.Pool.Manager.Sound.{IsSound}
use cs564_projects.Pool.Manager.Evict.{on_table_ok}
use cs564_projects.Pool.Manager.Alloc.{Allocates, alloc_buf-Allocates}

module _ (P D : Type 0) where
  -- The page `p` of file `f` is in frame `i`, pinned once.
  abbrev pub installed : ℕ → ℕ → ℕ → P → D → BufHashTbl → BufMgr P D → BufMgr P D
  installed f p i page d u t = record t {
    disk = d;
    hash_table = u;
    pool = set t.pool i page;
    descs = set t.descs i (assign f p (desc P D t i));
  }

  -- The page is in the pool, and its number not in the table.
  abbrev pub filled : ℕ → P → D → BufMgr P D → BufMgr P D
  filled i page d t = record t { disk = d; pool = set t.pool i page }

module _ (P D : Type 0) (h : Hash) (files : Files P D) where
  -- How `readPage` ends for a page that is not in the pool.
  pub data Fetches (f p : ℕ) (s : BufMgr P D) : Outcome ℕ × BufMgr P D → Type 0 where
    no_frame :
        (e : Exception) (t : BufMgr P D)
        → alloc_buf P D h files s ≡ (throw e, t)
        → Fetches f p s (throw e, t)
    no_page :
        (e : Exception) (i : ℕ) (t : BufMgr P D)
        → alloc_buf P D h files s ≡ (ok i, t)
        → files.read_page f p t.disk ≡ throw e
        → Fetches f p s (throw e, t)
    fetched :
        (i : ℕ) (t : BufMgr P D) (page : P) (u : BufHashTbl)
        → alloc_buf P D h files s ≡ (ok i, t)
        → files.read_page f p t.disk ≡ ok page
        → Becomes h t.hash_table f p (some i) u
        → Fetches f p s (ok i, installed P D f p i page t.disk u t)

  unfoldable pub enter : {A : Type 0} → ℕ → ℕ → ℕ → A → Method (BufMgr P D) A
  enter f p i a =
      on_table P D h files (λ t. insert h t f p i)
      >> update_desc P D h files i (assign f p)
      >> return a

  pub enter_absent :
      {A : Type 0} (f p i : ℕ) (a : A) (t : BufMgr P D)
      → IsSound P D h t
      → view h t.hash_table f p ≡ none
      → (u : BufHashTbl) × (enter f p i a t
          ≡ (ok a, record t { hash_table = u; descs = set t.descs i (assign f p (desc P D t i)) }))
        × Becomes h t.hash_table f p (some i) u
  unfolding enter update_desc
  enter_absent f p i a t v absent =
      let (u, inserted, b) = insert-Becomes h t.hash_table f p i v.linked.table absent in
      (
        u,
        on_table_ok P D h files (λ t'. insert h t' f p i)
            (update_desc P D h files i (assign f p) >> return a) t u inserted,
        b,
      )

  read_into_ok :
      (f p i : ℕ) (t : BufMgr P D) (page : P)
      → files.read_page f p t.disk ≡ ok page
      → read_into P D h files f p i t ≡ (ok tt, record t { pool = set t.pool i page })
  unfolding read_into put_page
  read_into_ok f p i t page e = rw (read_into, e)

  read_into_throw :
      (f p i : ℕ) (t : BufMgr P D) (e : Exception)
      → files.read_page f p t.disk ≡ throw e
      → read_into P D h files f p i t ≡ (throw e, t)
  unfolding read_into
  read_into_throw f p i t e run = rw (read_into, run)

  pub filled-IsSound :
      (i : ℕ) (page : P) (d : D) (t : BufMgr P D)
      → IsSound P D h t
      → IsSound P D h (filled P D i page d t)
  filled-IsSound i page d t v = record {
    some_bufs = v.some_bufs;
    hand = v.hand;
    frames = length-set t.pool i page ∙ v.frames;
    linked = v.linked;
  }

  from_file :
      (f p i : ℕ) (s t : BufMgr P D) (o : Outcome P)
      → IsSound P D h t
      → view h t.hash_table f p ≡ none
      → alloc_buf P D h files s ≡ (ok i, t)
      → files.read_page f p t.disk ≡ o
      → Fetches f p s ((read_into P D h files f p i >> enter f p i i) t)
  from_file f p i s t (throw e) v absent run read =
      rw
        (bind_throw (read_into P D h files f p i) (λ _. enter f p i i) t t e
          (read_into_throw f p i t e read))
        (no_page e i t run read)
  from_file f p i s t (ok page) v absent run read =
      let t' = filled P D i page t.disk t in
      let (u, entered, b) = enter_absent f p i i t' (filled-IsSound i page t.disk t v) absent in
      rw
        (bind_ok (read_into P D h files f p i) (λ _. enter f p i i) t t' tt
            (read_into_ok f p i t page read)
          ∙ entered)
        (fetched i t page u run read b)

  from_frame :
      (f p : ℕ) (s : BufMgr P D) (r : Outcome ℕ × BufMgr P D)
      → IsSound P D h s
      → view h s.hash_table f p ≡ none
      → alloc_buf P D h files s ≡ r
      → Allocates P D h files s r
      → Fetches f p s (fetch P D h files f p s)
  unfolding fetch enter
  from_frame f p s (throw e, t) v absent run a =
      rw
        (bind_throw (alloc_buf P D h files) (λ i. read_into P D h files f p i >> enter f p i i) s t
          e run)
        (no_frame e t run)
  from_frame f p s (ok i, t) v absent run a =
      rw
        (bind_ok (alloc_buf P D h files) (λ i'. read_into P D h files f p i' >> enter f p i' i') s t
          i run)
        (from_file f p i s t (files.read_page f p t.disk) a.sound (a.spares.absent f p absent) run
          refl)

  pub fetch-Fetches :
      (f p : ℕ) (s : BufMgr P D)
      → IsSound P D h s
      → view h s.hash_table f p ≡ none
      → Fetches f p s (fetch P D h files f p s)
  fetch-Fetches f p s v absent =
      from_frame f p s (alloc_buf P D h files s) v absent refl (alloc_buf-Allocates P D h files s v)

  -- A page that is not in the pool is put in an unused frame.
  pub installed-IsSound :
      (f p i : ℕ) (page : P) (d : D) (u : BufHashTbl) (t : BufMgr P D)
      → IsSound P D h t
      → i < t.num_bufs
      → (desc P D t i).valid ≡ false
      → view h t.hash_table f p ≡ none
      → Becomes h t.hash_table f p (some i) u
      → IsSound P D h (installed P D f p i page d u t)
  installed-IsSound f p i page d u t v l free absent b = record {
    some_bufs = v.some_bufs;
    hand = v.hand;
    frames = length-set t.pool i page ∙ v.frames;
    linked = install-Linked h t.num_bufs t.hash_table t.descs v.linked i u f p l free absent b;
  }

-- ===== src/Pool/Manager/Obtain.antt =====
-- How BufMgr::allocPage of p2/src/buffer.cpp brings a page into the pool.
use cs564_projects.Prelude.{ℕ, none, some, ◌≡◌, ◌⊎◌, refl, ap, Option-cases, inl, inr}
use cs564_projects.Pool.Outcome.{
  Outcome, Exception, ok, throw, Method, ◌>>=◌, ◌>>◌, return, bind_ok, bind_throw,
  hash_already_present,
}
use cs564_projects.Pool.HashTable.{Hash, BufHashTbl, insert}
use cs564_projects.Pool.HashTable.Laws.{view, Becomes, insert_present}
use cs564_projects.Pool.Manager.{
  Files, BufMgr, assign, alloc_buf, on_disk, update_desc, put_page, alloc_page,
}
use cs564_projects.Pool.Manager.Sound.{IsSound}
use cs564_projects.Pool.Manager.Evict.{on_table_throw}
use cs564_projects.Pool.Manager.Alloc.{Allocates, alloc_buf-Allocates}
use cs564_projects.Pool.Manager.Fetch.{installed, filled, filled-IsSound, enter, enter_absent}

module _ (P D : Type 0) (h : Hash) (files : Files P D) where
  -- How `allocPage` ends.
  pub data Obtains (f : ℕ) (s : BufMgr P D) : Outcome (ℕ × ℕ) × BufMgr P D → Type 0 where
    no_frame :
        (e : Exception) (t : BufMgr P D)
        → alloc_buf P D h files s ≡ (throw e, t)
        → Obtains f s (throw e, t)
    no_page :
        (e : Exception) (i : ℕ) (t : BufMgr P D) (d : D)
        → alloc_buf P D h files s ≡ (ok i, t)
        → files.allocate_page f t.disk ≡ (throw e, d)
        → Obtains f s (throw e, record t { disk = d })
    present :
        (i k : ℕ) (t : BufMgr P D) (page : P) (d : D)
        → alloc_buf P D h files s ≡ (ok i, t)
        → files.allocate_page f t.disk ≡ (ok page, d)
        → view h t.hash_table f (files.page_number page) ≡ some k
        → Obtains f s (throw hash_already_present, filled P D i page d t)
    obtained :
        (i : ℕ) (t : BufMgr P D) (page : P) (d : D) (u : BufHashTbl)
        → alloc_buf P D h files s ≡ (ok i, t)
        → files.allocate_page f t.disk ≡ (ok page, d)
        → view h t.hash_table f (files.page_number page) ≡ none
        → Becomes h t.hash_table f (files.page_number page) (some i) u
        → Obtains f s
            (ok (files.page_number page, i), installed P D f (files.page_number page) i page d u t)

  enter_present :
      {A : Type 0} (f p i k : ℕ) (a : A) (t : BufMgr P D)
      → view h t.hash_table f p ≡ some k
      → enter P D h files f p i a t ≡ (throw hash_already_present, t)
  unfolding enter
  enter_present f p i k a t there =
      on_table_throw P D h files (λ t'. insert h t' f p i)
        (update_desc P D h files i (assign f p) >> return a) t hash_already_present
        (insert_present h t.hash_table f p i k there)

  entered_page : ℕ → ℕ → P → Method (BufMgr P D) (ℕ × ℕ)
  entered_page f i page =
      put_page P D h files i page
      >> enter P D h files f (files.page_number page) i (files.page_number page, i)

  from_disk :
      (f i : ℕ) (s t : BufMgr P D) (page : P) (d : D)
      → IsSound P D h t
      → alloc_buf P D h files s ≡ (ok i, t)
      → files.allocate_page f t.disk ≡ (ok page, d)
      → (view h t.hash_table f (files.page_number page) ≡ none)
        ⊎ ((k : ℕ) × (view h t.hash_table f (files.page_number page) ≡ some k))
      → Obtains f s (entered_page f i page (record t { disk = d }))
  unfolding entered_page put_page
  from_disk f i s t page d v run got (inr (k, there)) =
      rw
        (enter_present {A = ℕ × ℕ} f (files.page_number page) i k (files.page_number page, i)
          (filled P D i page d t) there)
        (present i k t page d run got there)
  from_disk f i s t page d v run got (inl absent) =
      let n = files.page_number page in
      let (u, entered, b) =
        enter_absent P D h files {A = ℕ × ℕ} f n i (n, i) (filled P D i page d t)
          (filled-IsSound P D h files i page d t v) absent in
      rw entered (obtained i t page d u run got absent b)

  on_disk_run :
      {A : Type 0} (m : Method D A) (t : BufMgr P D) (o : Outcome A) (d : D)
      → m t.disk ≡ (o, d)
      → on_disk P D h files m t ≡ (o, record t { disk = d })
  unfolding on_disk
  on_disk_run m t o d e = ap (λ x. (x.0, record t { disk = x.1 })) e

  from_files :
      (f i : ℕ) (s t : BufMgr P D) (o : Outcome P × D)
      → IsSound P D h t
      → alloc_buf P D h files s ≡ (ok i, t)
      → files.allocate_page f t.disk ≡ o
      → Obtains f s ((on_disk P D h files (files.allocate_page f) >>= entered_page f i) t)
  from_files f i s t (throw e, d) v run got =
      rw
        (bind_throw (on_disk P D h files (files.allocate_page f)) (entered_page f i) t
          (record t { disk = d }) e (on_disk_run (files.allocate_page f) t (throw e) d got))
        (no_page e i t d run got)
  from_files f i s t (ok page, d) v run got =
      rw
        (bind_ok (on_disk P D h files (files.allocate_page f)) (entered_page f i) t
          (record t { disk = d }) page (on_disk_run (files.allocate_page f) t (ok page) d got))
        (from_disk f i s t page d v run got
          (Option-cases (view h t.hash_table f (files.page_number page))))

  page_from_frame :
      (f : ℕ) (s : BufMgr P D) (r : Outcome ℕ × BufMgr P D)
      → alloc_buf P D h files s ≡ r
      → Allocates P D h files s r
      → Obtains f s (alloc_page P D h files f s)
  unfolding alloc_page enter entered_page
  page_from_frame f s (throw e, t) run a =
      rw
        (bind_throw (alloc_buf P D h files)
          (λ i. on_disk P D h files (files.allocate_page f) >>= entered_page f i) s t e run)
        (no_frame e t run)
  page_from_frame f s (ok i, t) run a =
      rw
        (bind_ok (alloc_buf P D h files)
          (λ i'. on_disk P D h files (files.allocate_page f) >>= entered_page f i') s t i run)
        (from_files f i s t _ a.sound run refl)

  pub alloc_page-Obtains :
      (f : ℕ) (s : BufMgr P D) → IsSound P D h s → Obtains f s (alloc_page P D h files f s)
  alloc_page-Obtains f s v =
      page_from_frame f s (alloc_buf P D h files s) refl (alloc_buf-Allocates P D h files s v)

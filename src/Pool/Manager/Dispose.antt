-- ===== src/Pool/Manager/Dispose.antt =====
-- BufMgr::disposePage and the constructor of BufMgr, of p2/src/buffer.cpp.
use cs564_projects.Prelude.{
  ℕ, zero, suc, ◌<◌, true, false, none, some, if◌then◌else◌, length, ◌≡◌, refl, ap, sym, ◌∙◌, arith,
  Bool-cases, Option-cases, inl, inr, length-replicate,
}
use cs564_projects.Pool.Outcome.{Outcome}
use cs564_projects.Pool.HashTable.{Hash, BufHashTbl, remove}
use cs564_projects.Pool.HashTable.Chains.{same_page}
use cs564_projects.Pool.HashTable.Laws.{view, Becomes, remove-Becomes, create-IsValid}
use cs564_projects.Pool.Manager.{
  Files, BufMgr, BufDesc, desc, put_desc, clear, update_desc, on_disk, dispose_page, create,
  fresh_descs, hashtable_sz,
}
use cs564_projects.Pool.Manager.Linked.{IsClear, desc_at}
use cs564_projects.Pool.Manager.Sound.{IsSound, moved-IsSound}
use cs564_projects.Pool.Manager.Evict.{vacant, vacant-IsSound, on_table_ok}
use cs564_projects.Pool.Manager.Frames.{lookup_hit, lookup_miss}

module _ (P D : Type 0) (h : Hash) (files : Files P D) (f p : ℕ) where
  abbrev deleted : BufMgr P D → Outcome (Unit {0}) × D
  deleted s = files.delete_page f p s.disk

  dispose_absent :
      (s : BufMgr P D)
      → view h s.hash_table f p ≡ none
      → dispose_page P D h files f p s ≡ ((deleted s).0, record s { disk = (deleted s).1 })
  unfolding dispose_page on_disk
  dispose_absent s e = rw (dispose_page, lookup_miss P D h files f p s e)

  dispose_present :
      (s : BufMgr P D) (k : ℕ)
      → IsSound P D h s
      → view h s.hash_table f p ≡ some k
      → (u : BufHashTbl) × (dispose_page P D h files f p s
          ≡ ((deleted s).0, vacant P D h files k (deleted s).1 u s))
        × Becomes h s.hash_table f p none u
  unfolding dispose_page update_desc on_disk
  dispose_present s k v e =
      let (u, removed, b) = remove-Becomes h s.hash_table f p k v.linked.table e in
      let t = put_desc P D k (clear (desc P D s k)) s in
      let run =
        on_table_ok P D h files (λ t'. remove h t' f p)
          (on_disk P D h files (files.delete_page f p)) t u removed in
      (u, rw (dispose_page, lookup_hit P D h files f p k s e) run, b)

  -- `dispose_page` of a sound manager ends as the deletion from the file does; however that is, the
  -- manager is sound, the page is not in the pool, and other pages keep their frames.
  pub dispose_page_gone :
      (s : BufMgr P D)
      → IsSound P D h s
      → let r = dispose_page P D h files f p s in
        (r.0 ≡ (files.delete_page f p s.disk).0)
        × IsSound P D h r.1
        × ((g q : ℕ)
            → view h r.1.hash_table g q
              ≡ (if same_page f p g q then none else view h s.hash_table g q))
  dispose_page_gone s v = elim (Option-cases (view h s.hash_table f p)) [
    | inl e ↦ rw (dispose_absent s e) (
      refl,
      moved-IsSound P D h s (deleted s).1 s.clock_hand v.hand v,
      λ g q. elim (Bool-cases (same_page f p g q)) [
        | inr apart ↦ rw apart
        | inl same ↦
            let file : g ≡ f = ground arith in
            let page : q ≡ p = ground arith in rw (same, file, page) e
      ],
    )
    | inr (k, e) ↦
        let (u, run, b) = dispose_present s k v e in
        let m = v.linked.mapped f p k e in
        let c : Becomes h s.hash_table (desc P D s k).file (desc P D s k).page_no none u =
          rw (m.2, m.3) b in
        rw run (refl, vacant-IsSound P D h files s k (deleted s).1 u v m.1 c, b.reads)
  ]

module _ (P D : Type 0) (h : Hash) (files : Files P D) where
  fresh-IsClear :
      (i n k : ℕ)
      → ((desc_at (fresh_descs i n) k).valid ≡ false) × IsClear (desc_at (fresh_descs i n) k)
  unfolding fresh_descs
  fresh-IsClear i zero k = (refl, record { unpinned = refl; clean = refl; nameless = refl })
  fresh-IsClear i (suc n) zero = (refl, record { unpinned = refl; clean = refl; nameless = refl })
  fresh-IsClear i (suc n) (suc k) = fresh-IsClear (suc i) n k

  fresh_length : (i n : ℕ) → length (fresh_descs i n) ≡ n
  unfolding fresh_descs
  fresh_length i zero = refl
  fresh_length i (suc n) = ap suc (fresh_length (suc i) n)

  not_valid : (d : BufDesc) → d.valid ≡ false → d.valid ≡ true → ⊥
  not_valid d a b = cc

  size_pos : (bufs : ℕ) → 0 < hashtable_sz bufs
  unfolding hashtable_sz
  size_pos bufs = omega arith

  -- A new manager of at least one frame is sound, and no page is in its pool.
  pub create-IsSound :
      (bufs : ℕ) (disk : D)
      → 0 < bufs
      → IsSound P D h (create P D h files bufs disk)
        × ((f p : ℕ) → view h (create P D h files bufs disk).hash_table f p ≡ none)
  unfolding create
  create-IsSound bufs disk l =
      let (valid, absent) = create-IsValid h (hashtable_sz bufs) (size_pos bufs) in
      (
        record {
          some_bufs = l;
          hand = omega arith;
          frames = length-replicate bufs files.new_page;
          linked = record {
            table = valid;
            size = fresh_length 0 bufs;
            mapped = λ f p k e. absurd (none_some k (sym (absent f p) ∙ e));
            listed = λ k e.
                absurd (not_valid (desc_at (fresh_descs 0 bufs) k) (fresh-IsClear 0 bufs k).0 e);
            cleared = λ k e. (fresh-IsClear 0 bufs k).1;
          };
        },
        absent,
      )
    where
      none_some : (k : ℕ) → none ≡ some k → ⊥
      none_some k e = cc

-- ===== src/Pool/Manager/Settled.antt =====
-- BufMgr::flushFile of p2/src/buffer.cpp when nobody uses a page of the file.
use cs564_projects.Prelude.{ℕ, zero, suc, ◌+◌, ◌<◌, true, ◌≡◌, ◌≢◌, refl, ap, sym, ◌∙◌, arith}
use cs564_projects.Pool.Outcome.{Outcome, ok, throw, ◌>>◌, bind_ok}
use cs564_projects.Pool.HashTable.{Hash}
use cs564_projects.Pool.Manager.{Files, BufMgr, desc, no_file, flush_frame, flush_from, flush_file}
use cs564_projects.Pool.Manager.Sound.{IsSound}
use cs564_projects.Pool.Manager.Finds.{WritesSucceed}
use cs564_projects.Pool.Manager.Flush.{
  Flushes, elsewhere, bad, in_use, failed, flushed, flush_frame-Flushes,
}
use cs564_projects.Pool.Manager.Sweep.{Flushes-Sweeps, vacant_valid}

module _ (P D : Type 0) (h : Hash) (files : Files P D) (f : ℕ) where
  -- Nobody uses a page of the file.
  abbrev pub NotInUse : BufMgr P D → Type 0
  NotInUse s =
      (k : ℕ) → (desc P D s k).valid ≡ true → (desc P D s k).file ≡ f → (desc P D s k).pin_cnt ≡ 0

  record Goes (r : Outcome (Unit {0}) × BufMgr P D) : Type 0 where
    ends : r.0 ≡ ok tt
    unused : NotInUse r.1

  Flushes-Goes :
      (s : BufMgr P D) (i : ℕ) (r : Outcome (Unit {0}) × BufMgr P D)
      → WritesSucceed P D h files
      → f ≢ no_file
      → IsSound P D h s
      → i < s.num_bufs
      → NotInUse s
      → Flushes P D h files f i s r
      → Goes r
  Flushes-Goes s i _ writes named v l unused (elsewhere _) = record { ends = refl; unused = unused }
  Flushes-Goes s i _ writes named v l unused (bad file invalid) =
      absurd (named (sym file ∙ (v.linked.cleared i invalid).nameless))
  Flushes-Goes s i _ writes named v l unused (in_use file used p) =
      let none = unused i used file in absurd (omega arith)
  Flushes-Goes s i _ writes named v l unused (failed e d why) = absurd (writes _ _ _ e why)
  Flushes-Goes s i _ writes named v l unused (flushed d u file used free b) = record {
    ends = refl;
    unused = λ k used' file'.
        let (_, same) = vacant_valid P D h files f s i k (omega (arith, v.linked.size)) used' in
        let was =
          unused k (sym (ap (λ c. c.valid) same) ∙ used') (sym (ap (λ c. c.file) same) ∙ file') in
        ap (λ c. c.pin_cnt) same ∙ was;
  }

  step-Goes :
      (i n : ℕ) (s : BufMgr P D) (r : Outcome (Unit {0}) × BufMgr P D)
      → flush_frame P D h files f i s ≡ r
      → Goes r
      → (flush_from P D h files f (i + 1) n r.1).0 ≡ ok tt
      → ((flush_frame P D h files f i >> flush_from P D h files f (i + 1) n) s).0 ≡ ok tt
  step-Goes i n s (throw e, t) run g rest = let e = g.ends in absurd (cc)
  step-Goes i n s (ok x, t) run g rest =
      rw (bind_ok (flush_frame P D h files f i) (λ _. flush_from P D h files f (i + 1) n) s t x run)
        rest

  flush_from-Goes :
      (i n : ℕ) (s : BufMgr P D)
      → WritesSucceed P D h files
      → f ≢ no_file
      → IsSound P D h s
      → NotInUse s
      → i + n ≡ s.num_bufs
      → (flush_from P D h files f i n s).0 ≡ ok tt
  unfolding flush_from
  flush_from-Goes i zero s writes named v unused e = refl
  flush_from-Goes i (suc n) s writes named v unused e =
      let r = flush_frame P D h files f i s in
      let ends = flush_frame-Flushes P D h files f i s v (omega arith) in
      let g = Flushes-Goes s i r writes named v (omega arith) unused ends in
      let w = Flushes-Sweeps P D h files f s i r v (omega arith) ends in
      step-Goes i n s r refl g
        (flush_from-Goes (i + 1) n r.1 writes named w.sound g.unused (omega (arith, w.bufs)))

  -- When nobody uses a page of the file, whose name is not empty, and writes to files do not throw,
  -- `flush_file` of a sound manager returns.
  pub flush_file_returns :
      (s : BufMgr P D)
      → WritesSucceed P D h files
      → f ≢ no_file
      → IsSound P D h s
      → NotInUse s
      → (flush_file P D h files f s).0 ≡ ok tt
  unfolding flush_file
  flush_file_returns s writes named v unused =
      flush_from-Goes 0 s.num_bufs s writes named v unused (omega arith)

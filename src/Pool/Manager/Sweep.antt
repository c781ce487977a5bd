-- ===== src/Pool/Manager/Sweep.antt =====
-- BufMgr::flushFile of p2/src/buffer.cpp: its loop over the frames.
use cs564_projects.Prelude.{
  ℕ, zero, suc, ◌+◌, ◌≤◌, ◌<◌, true, false, none, get_or, set, ◌==◌, length, ◌≡◌, ◌≢◌, refl, ap,
  sym, ◌∙◌, arith, Bool-cases, Option-cases, inl, inr, get_or-set_self, get_or-set_ne,
}
use cs564_projects.Pool.Outcome.{Outcome, ok, throw, ◌>>◌, bind_ok, bind_throw}
use cs564_projects.Pool.HashTable.{Hash}
use cs564_projects.Pool.HashTable.Chains.{same_page}
use cs564_projects.Pool.HashTable.Laws.{view, Becomes}
use cs564_projects.Pool.Manager.{
  Files, BufMgr, desc, no_desc, clear, flush_frame, flush_from, flush_file,
}
use cs564_projects.Pool.Manager.Sound.{IsSound, moved-IsSound}
use cs564_projects.Pool.Manager.Evict.{vacant-IsSound}
use cs564_projects.Pool.Manager.Flush.{
  Flushes, elsewhere, bad, in_use, failed, flushed, flush_frame-Flushes,
}

module _ (P D : Type 0) (h : Hash) (files : Files P D) (f : ℕ) where
  -- Frame `k` holds no page of the file.
  abbrev pub Lacks : BufMgr P D → ℕ → Type 0
  Lacks s k = (desc P D s k).valid ≡ true → (desc P D s k).file ≢ f

  -- The pages of other files stay, and the frames that have no page of the file get none.
  pub record Sweeps (s : BufMgr P D) (r : Outcome (Unit {0}) × BufMgr P D) : Type 0 where
    pub sound : IsSound P D h r.1
    pub bufs : r.1.num_bufs ≡ s.num_bufs
    others : (g q : ℕ) → g ≢ f → view h r.1.hash_table g q ≡ view h s.hash_table g q
    lacks : (k : ℕ) → Lacks s k → Lacks r.1 k

  Sweeps-refl : (s : BufMgr P D) (o : Outcome (Unit {0})) → IsSound P D h s → Sweeps s (o, s)
  Sweeps-refl s o v = record { sound = v; bufs = refl; others = λ g q ne. refl; lacks = λ k l. l }

  Sweeps-trans :
      (s t : BufMgr P D) (o : Outcome (Unit {0})) (r : Outcome (Unit {0}) × BufMgr P D)
      → Sweeps s (o, t)
      → Sweeps t r
      → Sweeps s r
  Sweeps-trans s t o r a b = record {
    sound = b.sound;
    bufs = b.bufs ∙ a.bufs;
    others = λ g q ne. b.others g q ne ∙ a.others g q ne;
    lacks = λ k l. b.lacks k (a.lacks k l);
  }

  pub vacant_valid :
      (s : BufMgr P D) (i k : ℕ)
      → i < length s.descs
      → (get_or (set s.descs i (clear (desc P D s i))) k no_desc).valid ≡ true
      → (i ≢ k) × (get_or (set s.descs i (clear (desc P D s i))) k no_desc ≡ desc P D s k)
  unfolding clear
  vacant_valid s i k l used = elim (Bool-cases (i == k)) [
    | inr e ↦
        (ground arith, get_or-set_ne s.descs i k (clear (desc P D s i)) no_desc (ground arith))
    | inl e ↦
        let same : k ≡ i = ground arith in
        let own = get_or-set_self s.descs i (clear (desc P D s i)) no_desc l in
        let at = ap (λ j. (get_or (set s.descs i (clear (desc P D s i))) j no_desc).valid) same in
        let off = ap (λ d. d.valid) own in absurd (cc)
  ]

  pub Flushes-Sweeps :
      (s : BufMgr P D) (i : ℕ) (r : Outcome (Unit {0}) × BufMgr P D)
      → IsSound P D h s
      → i < s.num_bufs
      → Flushes P D h files f i s r
      → Sweeps s r
  Flushes-Sweeps s i _ v l (elsewhere _) = Sweeps-refl s _ v
  Flushes-Sweeps s i _ v l (bad _ _) = Sweeps-refl s _ v
  Flushes-Sweeps s i _ v l (in_use _ _ _) = Sweeps-refl s _ v
  Flushes-Sweeps s i _ v l (failed e d _) = record {
    sound = moved-IsSound P D h s d s.clock_hand v.hand v;
    bufs = refl;
    others = λ g q ne. refl;
    lacks = λ k l'. l';
  }
  Flushes-Sweeps s i _ v l (flushed d u file used free b) =
      let c : Becomes h s.hash_table (desc P D s i).file (desc P D s i).page_no none u =
        rw file b in
      record {
        sound = vacant-IsSound P D h files s i d u v used c;
        bufs = refl;
        others = λ g q ne.
            let apart : same_page f (desc P D s i).page_no g q ≡ false = ground arith in
            b.reads g q ∙ rw apart;
        lacks = λ k l' used'.
            let (_, same) = vacant_valid s i k (omega (arith, v.linked.size)) used' in
            rw same (l' (sym (ap (λ c. c.valid) same) ∙ used'));
      }

  Flushes-Lacks :
      (s : BufMgr P D) (i : ℕ) (r : Outcome (Unit {0}) × BufMgr P D)
      → IsSound P D h s
      → i < s.num_bufs
      → Flushes P D h files f i s r
      → r.0 ≡ ok tt
      → Lacks r.1 i
  Flushes-Lacks s i _ v l (elsewhere other) e = λ _. other
  Flushes-Lacks s i _ v l (bad _ _) e = absurd (cc)
  Flushes-Lacks s i _ v l (in_use _ _ _) e = absurd (cc)
  Flushes-Lacks s i _ v l (failed _ _ _) e = absurd (cc)
  Flushes-Lacks s i _ v l (flushed d u file used free b) e =
      λ used'. absurd ((vacant_valid s i i (omega (arith, v.linked.size)) used').0 refl)

  -- The loop from frame `i` on, `n` frames.
  record Cleans (i n : ℕ) (s : BufMgr P D) (r : Outcome (Unit {0}) × BufMgr P D) : Type 0 where
    sweeps : Sweeps s r
    cleans : r.0 ≡ ok tt → (k : ℕ) → i ≤ k → k < i + n → Lacks r.1 k

  step-Cleans :
      (i n : ℕ) (s : BufMgr P D) (r : Outcome (Unit {0}) × BufMgr P D)
      → IsSound P D h s
      → i < s.num_bufs
      → flush_frame P D h files f i s ≡ r
      → Flushes P D h files f i s r
      → ((t : BufMgr P D)
          → IsSound P D h t
          → t.num_bufs ≡ s.num_bufs
          → Cleans (i + 1) n t (flush_from P D h files f (i + 1) n t))
      → Cleans i (suc n) s ((flush_frame P D h files f i >> flush_from P D h files f (i + 1) n) s)
  step-Cleans i n s (throw e, t) v l run r next =
      rw
        (bind_throw (flush_frame P D h files f i) (λ _. flush_from P D h files f (i + 1) n) s t e
          run)
        (record { sweeps = Flushes-Sweeps s i _ v l r; cleans = λ o. absurd (cc) })
  step-Cleans i n s (ok x, t) v l run r next =
      let first = Flushes-Sweeps s i _ v l r in
      let rest = next t first.sound first.bufs in
      rw (bind_ok (flush_frame P D h files f i) (λ _. flush_from P D h files f (i + 1) n) s t x run)
        (record {
          sweeps = Sweeps-trans s t (ok x) _ first rest.sweeps;
          cleans = λ o k a b. elim (Bool-cases (i == k)) [
            | inl e ↦
                let same : k ≡ i = ground arith in
                rw same (rest.sweeps.lacks i (Flushes-Lacks s i _ v l r refl))
            | inr e ↦ rest.cleans o k (ground arith) (ground arith)
          ];
        })

  flush_from-Cleans :
      (i n : ℕ) (s : BufMgr P D)
      → IsSound P D h s
      → i + n ≡ s.num_bufs
      → Cleans i n s (flush_from P D h files f i n s)
  unfolding flush_from
  flush_from-Cleans i zero s v e = record {
    sweeps = Sweeps-refl s _ v;
    cleans = λ o k a b. absurd (omega arith);
  }
  flush_from-Cleans i (suc n) s v e =
      step-Cleans i n s _ v (omega arith) refl
        (flush_frame-Flushes P D h files f i s v (omega arith))
        (λ t w same. flush_from-Cleans (i + 1) n t w (omega (arith, same)))

  -- `flush_file` keeps a sound manager sound, whatever the files do and however it ends, and the pages
  -- of other files keep their frames.
  pub flush_file_others :
      (s : BufMgr P D)
      → IsSound P D h s
      → IsSound P D h (flush_file P D h files f s).1
        × ((g q : ℕ)
            → g ≢ f
            → view h (flush_file P D h files f s).1.hash_table g q ≡ view h s.hash_table g q)
  unfolding flush_file
  flush_file_others s v =
      let c = (flush_from-Cleans 0 s.num_bufs s v (omega arith)).sweeps in (c.sound, c.others)

  -- When `flush_file` of a sound manager returns, no page of the file is in the pool.
  pub flush_file_gone :
      (s : BufMgr P D) (p : ℕ)
      → IsSound P D h s
      → (flush_file P D h files f s).0 ≡ ok tt
      → view h (flush_file P D h files f s).1.hash_table f p ≡ none
  unfolding flush_file
  flush_file_gone s p v o =
      let c = flush_from-Cleans 0 s.num_bufs s v (omega arith) in
      let t = (flush_from P D h files f 0 s.num_bufs s).1 in
      elim (Option-cases (view h t.hash_table f p)) [
        | inl e ↦ e
        | inr (k, e) ↦
            let m = c.sweeps.sound.linked.mapped f p k e in
            absurd (c.cleans o k (omega arith) (omega (arith, m.0, c.sweeps.bufs)) m.1 m.2)
      ]

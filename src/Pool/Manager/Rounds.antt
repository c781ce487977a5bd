-- ===== src/Pool/Manager/Rounds.antt =====
-- What every round of the loop of BufMgr::allocBuf of p2/src/buffer.cpp keeps.
use cs564_projects.Prelude.{
  ℕ, ◌+◌, ◌<◌, ◌%◌, Bool, true, false, ◌==◌, length, ◌≡◌, refl, ap, sym, ◌∙◌, arith, Bool-cases,
  inl, inr, get_or-set_self, get_or-set_ne,
}
use cs564_projects.Pool.Outcome.{Outcome, ok}
use cs564_projects.Pool.HashTable.{Hash}
use cs564_projects.Pool.Manager.{Files, BufMgr, desc, clear, advance_clock, no_desc}
use cs564_projects.Pool.Manager.Linked.{touch-Linked}
use cs564_projects.Pool.Manager.Sound.{IsSound, Spares, Spares-refl, Spares-trans}
use cs564_projects.Pool.Manager.Evict.{failed, freed, Evicts-IsSound, Evicts-Spares}
use cs564_projects.Pool.Manager.Visit.{
  here, unreferenced, Visits, found, dereferenced, passed, evicted, stopped,
}

pub mod_lt : (a n : ℕ) → 0 < n → a % n < n
mod_lt a n l = ground arith

module _ (P D : Type 0) (h : Hash) where
  pub advance_clock-IsSound :
      (s : BufMgr P D) → IsSound P D h s → IsSound P D h (advance_clock P D s)
  unfolding advance_clock
  advance_clock-IsSound s v = record {
    some_bufs = v.some_bufs;
    hand = mod_lt (s.clock_hand + 1) s.num_bufs v.some_bufs;
    frames = v.frames;
    linked = v.linked;
  }

  pub advance_clock-Spares : (s : BufMgr P D) → Spares P D h s (advance_clock P D s)
  unfolding advance_clock
  advance_clock-Spares s = record {
    bufs = refl;
    pool = refl;
    absent = λ f p e. e;
    pinned = λ j v p. (v, refl, refl, refl, refl);
  }

  pub unreferenced-IsSound :
      (s : BufMgr P D)
      → IsSound P D h s
      → (here P D s).valid ≡ true
      → IsSound P D h (unreferenced P D s)
  unreferenced-IsSound s v used = record {
    some_bufs = v.some_bufs;
    hand = v.hand;
    frames = v.frames;
    linked =
        touch-Linked h s.num_bufs s.hash_table s.descs v.linked s.clock_hand
          (record (here P D s) { refbit = false }) used used refl refl;
  }

  pub inside : (s : BufMgr P D) → IsSound P D h s → s.clock_hand < length s.descs
  inside s v = omega (arith, v.linked.size, v.hand)

  pub unreferenced-Spares : (s : BufMgr P D) → IsSound P D h s → Spares P D h s (unreferenced P D s)
  unreferenced-Spares s v = record {
    bufs = refl;
    pool = refl;
    absent = λ f p e. e;
    pinned = λ j used p. elim (Bool-cases (s.clock_hand == j)) [
      | inl e ↦
          let same : j ≡ s.clock_hand = ground arith in
          let e₁ = ap (λ k. (desc P D s k).valid) same in
          rw
            (
              same,
              get_or-set_self s.descs s.clock_hand (record (here P D s) { refbit = false }) no_desc
                  (inside s v),
            )
            (sym e₁ ∙ used, refl, refl, refl, refl)
      | inr e ↦
          rw
            (get_or-set_ne s.descs s.clock_hand j (record (here P D s) { refbit = false }) no_desc
              (ground arith))
            (used, refl, refl, refl, refl)
    ];
  }

module _ (P D : Type 0) (h : Hash) (files : Files P D) where
  pub Visits-IsSound :
      (s : BufMgr P D) (r : Outcome Bool × BufMgr P D)
      → IsSound P D h s
      → Visits P D h files s r
      → IsSound P D h r.1
  Visits-IsSound s _ v (found _) = v
  Visits-IsSound s _ v (dereferenced used _) =
      advance_clock-IsSound P D h (unreferenced P D s) (unreferenced-IsSound P D h s v used)
  Visits-IsSound s _ v (passed _ _) = advance_clock-IsSound P D h s v
  Visits-IsSound s _ v (evicted d u used free b) =
      Evicts-IsSound P D h files s s.clock_hand _ v used (freed d u b)
  Visits-IsSound s _ v (stopped e d used free why) =
      Evicts-IsSound P D h files s s.clock_hand _ v used (failed e d why)

  pub Visits-Spares :
      (s : BufMgr P D) (r : Outcome Bool × BufMgr P D)
      → IsSound P D h s
      → Visits P D h files s r
      → Spares P D h s r.1
  Visits-Spares s _ v (found _) = Spares-refl P D h s
  Visits-Spares s _ v (dereferenced _ _) =
      Spares-trans P D h s (unreferenced P D s) (advance_clock P D (unreferenced P D s))
        (unreferenced-Spares P D h s v) (advance_clock-Spares P D h (unreferenced P D s))
  Visits-Spares s _ v (passed _ _) = advance_clock-Spares P D h s
  Visits-Spares s _ v (evicted d u used free b) =
      Evicts-Spares P D h files s s.clock_hand _ free (freed d u b)
  Visits-Spares s _ v (stopped e d used free why) =
      Evicts-Spares P D h files s s.clock_hand _ free (failed e d why)

  pub Visits-valid :
      (s : BufMgr P D) (r : Outcome Bool × BufMgr P D)
      → IsSound P D h s
      → Visits P D h files s r
      → r.0 ≡ ok true
      → (here P D r.1).valid ≡ false
  unfolding clear
  Visits-valid s _ v (found free) e = free
  Visits-valid s _ v (dereferenced _ _) e = absurd (cc)
  Visits-valid s _ v (passed _ _) e = absurd (cc)
  Visits-valid s _ v (evicted d u used free b) e =
      rw (get_or-set_self s.descs s.clock_hand (clear (here P D s)) no_desc (inside P D h s v))
  Visits-valid s _ v (stopped _ _ _ _ _) e = absurd (cc)

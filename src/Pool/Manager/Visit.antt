-- ===== src/Pool/Manager/Visit.antt =====
-- A round of the loop of BufMgr::allocBuf of p2/src/buffer.cpp.
use cs564_projects.Prelude.{◌<◌, Bool, true, false, none, if◌then◌else◌, set, ltb, ◌≡◌, refl, arith}
use cs564_projects.Pool.Outcome.{Outcome, Exception, ok, throw, ◌>>◌, return, bind_ok, bind_throw}
use cs564_projects.Pool.HashTable.{Hash, BufHashTbl}
use cs564_projects.Pool.HashTable.Laws.{Becomes}
use cs564_projects.Pool.Manager.{
  Files, BufMgr, BufDesc, desc, put_desc, clear, evict, visit, advance_clock,
}
use cs564_projects.Pool.Manager.Sound.{IsSound}
use cs564_projects.Pool.Manager.Evict.{Evicts, failed, freed, WriteThrows, evict-Evicts}

module _ (P D : Type 0) where
  abbrev pub here : BufMgr P D → BufDesc
  here s = desc P D s s.clock_hand

  -- The frame at the clock hand loses its reference bit.
  abbrev pub unreferenced : BufMgr P D → BufMgr P D
  unreferenced s = put_desc P D s.clock_hand (record (here s) { refbit = false }) s

  -- The frame at the clock hand is cleared, its page gone from the table, after a write to the disk.
  abbrev pub vacated : D → BufHashTbl → BufMgr P D → BufMgr P D
  vacated d u s = record s {
    disk = d;
    hash_table = u;
    descs = set s.descs s.clock_hand (clear (here s));
  }

module _ (P D : Type 0) (h : Hash) (files : Files P D) where
  -- How a round ends.
  pub data Visits (s : BufMgr P D) : Outcome Bool × BufMgr P D → Type 0 where
    found : (here P D s).valid ≡ false → Visits s (ok true, s)
    dereferenced :
        (here P D s).valid ≡ true
        → (here P D s).refbit ≡ true
        → Visits s (ok false, advance_clock P D (unreferenced P D s))
    passed :
        (here P D s).valid ≡ true
        → 0 < (here P D s).pin_cnt
        → Visits s (ok false, advance_clock P D s)
    evicted :
        (d : D) (u : BufHashTbl)
        → (here P D s).valid ≡ true
        → (here P D s).pin_cnt ≡ 0
        → Becomes h s.hash_table (here P D s).file (here P D s).page_no none u
        → Visits s (ok true, vacated P D d u s)
    stopped :
        (e : Exception) (d : D)
        → (here P D s).valid ≡ true
        → (here P D s).pin_cnt ≡ 0
        → WriteThrows P D h files s s.clock_hand e
        → Visits s (throw e, record s { disk = d })

  evict_and_return :
      (s : BufMgr P D) (r : Outcome (Unit {0}) × BufMgr P D)
      → (here P D s).valid ≡ true
      → (here P D s).pin_cnt ≡ 0
      → evict P D h files s.clock_hand s ≡ r
      → Evicts P D h files s s.clock_hand r
      → Visits s ((evict P D h files s.clock_hand >> return true) s)
  evict_and_return s _ used free run (failed e d why) =
      rw (bind_throw (evict P D h files s.clock_hand) (λ _. return true) s _ e run)
        (stopped e d used free why)
  evict_and_return s _ used free run (freed d u b) =
      rw (bind_ok (evict P D h files s.clock_hand) (λ _. return true) s _ tt run)
        (evicted d u used free b)

  -- The tests of a round.
  by_tests :
      (s : BufMgr P D) (valid refbit pinned : Bool) (x y z w : Outcome Bool × BufMgr P D)
      → (valid ≡ false → Visits s x)
      → (valid ≡ true → refbit ≡ true → Visits s y)
      → (valid ≡ true → pinned ≡ true → Visits s z)
      → (valid ≡ true → pinned ≡ false → Visits s w)
      → Visits s (if valid then (if refbit then y else (if pinned then z else w)) else x)
  by_tests s false refbit pinned x y z w a b c d = a refl
  by_tests s true true pinned x y z w a b c d = b refl refl
  by_tests s true false true x y z w a b c d = c refl refl
  by_tests s true false false x y z w a b c d = d refl refl

  pub visit-Visits : (s : BufMgr P D) → IsSound P D h s → Visits s (visit P D h files s)
  unfolding visit
  visit-Visits s v =
      let d = here P D s in
      by_tests s d.valid d.refbit (ltb 0 d.pin_cnt) (ok true, s)
        (ok false, advance_clock P D (unreferenced P D s)) (ok false, advance_clock P D s)
        ((evict P D h files s.clock_hand >> return true) s) found dereferenced
        (λ e p. passed e (ground arith))
        (λ e p.
          evict_and_return s _ e (ground arith) refl (evict-Evicts P D h files s s.clock_hand v e))

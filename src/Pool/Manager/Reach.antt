-- ===== src/Pool/Manager/Reach.antt =====
-- The calls of the methods of BufMgr of p2/src/buffer.cpp, in any order.
use cs564_projects.Prelude.{ℕ, ◌<◌, Bool}
use cs564_projects.Pool.HashTable.{Hash}
use cs564_projects.Pool.Manager.{
  Files, BufMgr, create, read_page, un_pin_page, alloc_page, flush_file, dispose_page,
}
use cs564_projects.Pool.Manager.Sound.{IsSound}
use cs564_projects.Pool.Manager.Pages.{read_page-IsSound}
use cs564_projects.Pool.Manager.Release.{un_pin_page-IsSound, alloc_page-IsSound}
use cs564_projects.Pool.Manager.Sweep.{flush_file_others}
use cs564_projects.Pool.Manager.Dispose.{dispose_page_gone, create-IsSound}

pub data Call : Type 0 where
  reading : ℕ → ℕ → Call
  un_pinning : ℕ → ℕ → Bool → Call
  allocating : ℕ → Call
  flushing : ℕ → Call
  disposing : ℕ → ℕ → Call

module _ (P D : Type 0) (h : Hash) (files : Files P D) where
  -- The manager after a call, which may have thrown.
  unfoldable pub call : Call → BufMgr P D → BufMgr P D
  call (reading f p) s = (read_page P D h files f p s).1
  call (un_pinning f p dirty) s = (un_pin_page P D h files f p dirty s).1
  call (allocating f) s = (alloc_page P D h files f s).1
  call (flushing f) s = (flush_file P D h files f s).1
  call (disposing f p) s = (dispose_page P D h files f p s).1

  -- The states of a manager of at least one frame.
  pub data Reachable : BufMgr P D → Type 0 where
    created : (bufs : ℕ) (disk : D) → 0 < bufs → Reachable (create P D h files bufs disk)
    called : (s : BufMgr P D) (c : Call) → Reachable s → Reachable (call c s)

  call-IsSound : (c : Call) (s : BufMgr P D) → IsSound P D h s → IsSound P D h (call c s)
  unfolding call
  call-IsSound (reading f p) s v = read_page-IsSound P D h files f p s v
  call-IsSound (un_pinning f p dirty) s v = un_pin_page-IsSound P D h files f p dirty s v
  call-IsSound (allocating f) s v = alloc_page-IsSound P D h files f s v
  call-IsSound (flushing f) s v = (flush_file_others P D h files f s v).0
  call-IsSound (disposing f p) s v = (dispose_page_gone P D h files f p s v).1

  -- Whatever calls are made of a manager of at least one frame, and whatever the files do, errors
  -- included, the manager is sound: the hash table has a page in a frame exactly when the frame's
  -- descriptor is valid and names the page, no page is there twice, frames that are not valid are
  -- clear, and the clock hand is a frame.
  pub Reachable-IsSound : (s : BufMgr P D) → Reachable s → IsSound P D h s
  Reachable-IsSound _ (created bufs disk l) = (create-IsSound P D h files bufs disk l).0
  Reachable-IsSound _ (called s c r) = call-IsSound c s (Reachable-IsSound s r)

-- ===== src/Pool/Manager.antt =====
-- badgerdb::BufMgr of p2/src/buffer.h and buffer.cpp. The descriptor table and the pool are lists,
-- indexed by frame.
mod State
pub mod Linked
pub mod Install
pub mod Sound
pub mod Evict
pub mod Visit
pub mod Rounds
pub mod Clock
pub mod Alloc
pub mod Exceeded
pub mod Finds
pub mod Fetch
pub mod Obtain
pub mod Frames
pub mod Pages
pub mod Release
pub mod Flush
pub mod Sweep
pub mod Settled
pub mod Dispose
pub mod Reach
unfoldable pub use State.*
use cs564_projects.Prelude.{
  ℕ, zero, suc, ◌+◌, ◌-◌, ◌*◌, ◌/◌, ◌%◌, Bool, true, false, List, [], ◌∷◌, ltb, ◌==◌, if◌then◌else◌,
  get_or, set, replicate,
}
use cs564_projects.Pool.Outcome.{
  Outcome, ok, throw, Method, ◌>>=◌, ◌>>◌, return, raise, buffer_exceeded, page_not_pinned,
  page_pinned, bad_buffer, out_of_rounds,
}
use cs564_projects.Pool.HashTable.{Hash, BufHashTbl}
use cs564_projects.Pool.HashTable

module _ (P D : Type 0) (h : Hash) (files : Files P D) where
  -- `BufMgr::BufMgr`
  unfoldable pub create : ℕ → D → BufMgr P D
  unfolding hashtable_sz fresh_descs
  create bufs disk = record {
    clock_hand = bufs - 1;
    num_bufs = bufs;
    hash_table = HashTable.create (hashtable_sz bufs);
    descs = fresh_descs 0 bufs;
    pool = replicate bufs files.new_page;
    disk = disk;
  }

  -- An operation of the files, and of the hash table, on the manager's own.
  unfoldable pub on_disk : {A : Type 0} → Method D A → Method (BufMgr P D) A
  on_disk m s = let (o, d) = m s.disk in (o, record s { disk = d })

  unfoldable pub on_table : (BufHashTbl → Outcome BufHashTbl) → Method (BufMgr P D) (Unit {0})
  on_table f s = elim (f s.hash_table) [
    | ok t ↦ (ok tt, record s { hash_table = t })
    | throw e ↦ (throw e, s)
  ]

  -- `f.writePage(bufPool[i])`
  unfoldable pub write_frame : ℕ → ℕ → Method (BufMgr P D) (Unit {0})
  unfolding on_disk
  write_frame file i s = on_disk (files.write_page file (get_or s.pool i files.new_page)) s

  unfoldable pub update_desc : ℕ → (BufDesc → BufDesc) → Method (BufMgr P D) (Unit {0})
  update_desc i f s = (ok tt, put_desc P D i (f (desc P D s i)) s)

  -- The last part of the loop's body: the frame holds a page that nobody uses.
  unfoldable pub evict : ℕ → Method (BufMgr P D) (Unit {0})
  unfolding write_frame on_table update_desc clear
  evict i s =
      let d = desc P D s i in
      (do
        (if d.dirty then write_frame d.file i else return tt)
        on_table (λ t. HashTable.remove h t d.file d.page_no)
        update_desc i clear)
        s

  -- The body of the loop of `BufMgr::allocBuf` at the clock hand: `true` if it returns the frame,
  -- `false` if it goes on with the next.
  unfoldable pub visit : Method (BufMgr P D) Bool
  unfolding evict advance_clock
  visit s =
      let i = s.clock_hand in
      let d = desc P D s i in
      let cleared = advance_clock P D (put_desc P D i (record d { refbit = false }) s) in
      let taken = (evict i >> return true) s in
      if d.valid
      then (if d.refbit
          then (ok false, cleared)
          else (if ltb 0 d.pin_cnt then (ok false, advance_clock P D s) else taken))
      else (ok true, s)

  -- The loop of `BufMgr::allocBuf`, its counter and the frame where it began.
  unfoldable pub alloc_loop : ℕ → ℕ → ℕ → Method (BufMgr P D) ℕ
  unfolding visit
  alloc_loop zero loop start s = (throw out_of_rounds, s)
  alloc_loop (suc fuel) loop start s =
      let loop' = if start == s.clock_hand then loop + 1 else loop in
      let (o, s') = visit s in
      let next = alloc_loop fuel loop' start s' in
      if ltb loop 3
      then elim o [
        | throw e ↦ (throw e, s')
        | ok b ↦ elim b [ true ↦ (ok s'.clock_hand, s') | false ↦ next ]
      ]
      else (throw buffer_exceeded, s)

  -- `BufMgr::allocBuf`; the loop has at most `2 * numBufs + 1` rounds and one more test.
  unfoldable pub alloc_buf : Method (BufMgr P D) ℕ
  unfolding alloc_loop advance_clock
  alloc_buf s = let s' = advance_clock P D s in alloc_loop (2 * s.num_bufs + 2) 0 s'.clock_hand s'

  -- `bufPool[i] = page`
  unfoldable pub put_page : ℕ → P → Method (BufMgr P D) (Unit {0})
  put_page i page s = (ok tt, record s { pool = set s.pool i page })

  unfoldable pub read_into : ℕ → ℕ → ℕ → Method (BufMgr P D) (Unit {0})
  unfolding put_page
  read_into file page_no i s = elim (files.read_page file page_no s.disk) [
    | throw e ↦ (throw e, s)
    | ok page ↦ put_page i page s
  ]

  -- The handler of `BufMgr::readPage` for a page that is not in the pool.
  unfoldable pub fetch : ℕ → ℕ → Method (BufMgr P D) ℕ
  unfolding alloc_buf read_into on_table update_desc assign
  fetch file page_no = do
    i ← alloc_buf
    read_into file page_no i
    on_table (λ t. HashTable.insert h t file page_no i)
    update_desc i (assign file page_no)
    return i

  -- `BufMgr::readPage`: the frame of the page, which the source returns by a pointer into the pool
  unfoldable pub read_page : ℕ → ℕ → Method (BufMgr P D) ℕ
  unfolding fetch pin update_desc
  read_page file page_no s = elim (HashTable.lookup h s.hash_table file page_no) [
    | ok i ↦ (update_desc i pin >> return i) s
    | throw e ↦ fetch file page_no s
  ]

  -- `BufMgr::unPinPage`; a page that is not in the pool is passed over
  unfoldable pub un_pin_page : ℕ → ℕ → Bool → Method (BufMgr P D) (Unit {0})
  unfolding unpin update_desc
  un_pin_page file page_no dirty s = elim (HashTable.lookup h s.hash_table file page_no) [
    | ok i ↦
        if (desc P D s i).pin_cnt == 0
        then (throw page_not_pinned, s)
        else update_desc i (unpin dirty) s
    | throw e ↦ (ok tt, s)
  ]

  -- `BufMgr::allocPage`: the new page's number and its frame
  unfoldable pub alloc_page : ℕ → Method (BufMgr P D) (ℕ × ℕ)
  unfolding alloc_buf on_disk put_page on_table update_desc assign
  alloc_page file = do
    i ← alloc_buf
    page ← on_disk (files.allocate_page file)
    put_page i page
    on_table (λ t. HashTable.insert h t file (files.page_number page) i)
    update_desc i (assign file (files.page_number page))
    return (files.page_number page, i)

  -- The body of the loop of `BufMgr::flushFile`
  unfoldable pub flush_frame : ℕ → ℕ → Method (BufMgr P D) (Unit {0})
  unfolding write_frame on_table update_desc clear
  flush_frame file i s =
      let d = desc P D s i in
      let write =
        (do
          (if d.dirty
              then write_frame file i >> update_desc i (λ d'. record d' { dirty = false })
              else return tt)
          on_table (λ t. HashTable.remove h t file d.page_no)
          update_desc i clear)
          s in
      if d.file == file
      then (if d.valid
          then (if ltb 0 d.pin_cnt then (throw page_pinned, s) else write)
          else (throw bad_buffer, s))
      else (ok tt, s)

  -- The loop from frame `i` on, with `n` frames left.
  unfoldable pub flush_from : ℕ → ℕ → ℕ → Method (BufMgr P D) (Unit {0})
  unfolding flush_frame
  flush_from file i zero = return tt
  flush_from file i (suc n) = flush_frame file i >> flush_from file (i + 1) n

  -- `BufMgr::flushFile`
  unfoldable pub flush_file : ℕ → Method (BufMgr P D) (Unit {0})
  unfolding flush_from
  flush_file file s = flush_from file 0 s.num_bufs s

  -- `BufMgr::disposePage`
  unfoldable pub dispose_page : ℕ → ℕ → Method (BufMgr P D) (Unit {0})
  unfolding update_desc clear on_table on_disk
  dispose_page file page_no s = elim (HashTable.lookup h s.hash_table file page_no) [
    | ok i ↦
        (do
          update_desc i clear
          on_table (λ t. HashTable.remove h t file page_no)
          on_disk (files.delete_page file page_no))
          s
    | throw e ↦ on_disk (files.delete_page file page_no) s
  ]

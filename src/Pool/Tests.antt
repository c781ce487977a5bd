-- ===== src/Pool/Tests.antt =====
-- Runs of the buffer manager of p2, and its theorems at concrete inputs. A page is its number, and the
-- disk is the number of pages of the only file.
use cs564_projects.Prelude.{
  ℕ, zero, suc, true, false, [], ◌∷◌, none, some, ltb, leb, ◌&&◌, if◌then◌else◌, ◌≡◌, refl, arith,
  ◌≢◌, get_or,
}
use cs564_projects.Pool.Outcome.{ok, throw, invalid_page, buffer_exceeded}
use cs564_projects.Pool.HashTable.{Hash, BufHashTbl, insert, remove}
use cs564_projects.Pool.HashTable
use cs564_projects.Pool.HashTable.Chains.{same_page, Distinct}
use cs564_projects.Pool.HashTable.Laws.{
  IsValid, view, Becomes, insert-Becomes, remove-Becomes, create-IsValid,
}
use cs564_projects.Pool.Manager.{
  Files, BufMgr, desc, create, alloc_buf, read_page, un_pin_page, alloc_page, flush_file,
  dispose_page,
}
use cs564_projects.Pool.Manager.Sound.{IsSound}
use cs564_projects.Pool.Manager.Alloc.{Allocates, alloc_buf-Allocates}
use cs564_projects.Pool.Manager.Exceeded.{AllPinned, Unchanged, alloc_buf_exceeded}
use cs564_projects.Pool.Manager.Finds.{IsFree, WritesSucceed, alloc_buf_returns}
use cs564_projects.Pool.Manager.Pages.{Reads, read_page-Reads}
use cs564_projects.Pool.Manager.Release.{Allots, alloc_page-Allots, pins, un_pin_page-read_page}
use cs564_projects.Pool.Manager.Sweep.{flush_file_others, flush_file_gone}
use cs564_projects.Pool.Manager.Settled.{NotInUse, flush_file_returns}
use cs564_projects.Pool.Manager.{no_file}
use cs564_projects.Pool.Manager.Dispose.{dispose_page_gone}
use cs564_projects.Pool.Manager.Reach.{
  un_pinning, allocating, call, Reachable, created, called, Reachable-IsSound,
}

program : Unit {0}
unfolding view insert HashTable.lookup remove create alloc_buf read_page un_pin_page alloc_page
    flush_file dispose_page call
program = tt

abbrev hash : Hash
hash = record { of_name = λ n. n; of_page = λ n. n }

abbrev files : Files ℕ ℕ
files = record {
  new_page = 0;
  page_number = λ p. p;
  read_page = λ f p d. if ltb 0 p && leb p d then ok p else throw (invalid_page p);
  write_page = λ f p d. (ok tt, d);
  allocate_page = λ f d. (ok (suc d), suc d);
  delete_page = λ f p d. (ok tt, d);
}

abbrev Pool : Type 0
Pool = BufMgr ℕ ℕ

one_named : 1 ≢ no_file
one_named e = omega arith

writes_succeed : WritesSucceed ℕ ℕ hash files
writes_succeed file page d e thrown = cc

abbrev table : BufHashTbl
table = HashTable.create 3

table-IsValid : IsValid table
table-IsValid = (create-IsValid hash 3 (omega arith)).0

-- Page 4 of file 1 is in frame 0.
abbrev of_one : BufHashTbl
of_one = record {
  ht_size = 3;
  ht = [] ∷ [] ∷ (record { file = 1; page_no = 4; frame_no = 0 } ∷ []) ∷ [];
}

insert_run : insert hash table 1 4 0 ≡ ok of_one
unfolding program
insert_run = refl

remove_run : remove hash of_one 1 4 ≡ ok table
unfolding program
remove_run = refl

insert-Becomes_example :
    (u : BufHashTbl) × (insert hash table 1 4 0 ≡ ok u) × Becomes hash table 1 4 (some 0) u
unfolding program
insert-Becomes_example = insert-Becomes hash table 1 4 0 table-IsValid refl

of_one-IsValid : IsValid of_one
unfolding HashTable.find_bucket
of_one-IsValid = record { width = refl; wide = omega arith; distinct = chains }
  where
    chains : (i : ℕ) → Distinct (get_or of_one.ht i [])
    chains zero = tt
    chains (suc zero) = tt
    chains (suc (suc zero)) = (refl, tt)
    chains (suc (suc (suc i))) = tt

remove-Becomes_example :
    (u : BufHashTbl) × (remove hash of_one 1 4 ≡ ok u) × Becomes hash of_one 1 4 none u
unfolding program
remove-Becomes_example = remove-Becomes hash of_one 1 4 0 of_one-IsValid refl

-- Two frames; both hold a pinned page of file 1; then page 1 is no longer pinned, but dirty.
abbrev start : Pool
start = create ℕ ℕ hash files 2 0

abbrev full : Pool
full = call ℕ ℕ hash files (allocating 1) (call ℕ ℕ hash files (allocating 1) start)

abbrev released : Pool
released = call ℕ ℕ hash files (un_pinning 1 1 true) full

full-Reachable : Reachable ℕ ℕ hash files full
full-Reachable =
    called (call ℕ ℕ hash files (allocating 1) start) (allocating 1)
      (called start (allocating 1) (created 2 0 (omega arith)))

released-Reachable : Reachable ℕ ℕ hash files released
released-Reachable = called full (un_pinning 1 1 true) full-Reachable

full-IsSound : IsSound ℕ ℕ hash full
full-IsSound = Reachable-IsSound ℕ ℕ hash files full full-Reachable

released-IsSound : IsSound ℕ ℕ hash released
released-IsSound = Reachable-IsSound ℕ ℕ hash files released released-Reachable

Reachable-IsSound_example : IsSound ℕ ℕ hash released
Reachable-IsSound_example = Reachable-IsSound ℕ ℕ hash files released released-Reachable

alloc_buf-Allocates_example : Allocates ℕ ℕ hash files released (alloc_buf ℕ ℕ hash files released)
alloc_buf-Allocates_example = alloc_buf-Allocates ℕ ℕ hash files released released-IsSound

alloc_buf_run : (alloc_buf ℕ ℕ hash files released).0 ≡ ok 0
unfolding program
alloc_buf_run = refl

both_pinned : AllPinned ℕ ℕ full
unfolding program
both_pinned zero l = (refl, omega arith)
both_pinned (suc zero) l = (refl, omega arith)
both_pinned (suc (suc k)) l = absurd (omega arith)

alloc_buf_exceeded_example :
    ((alloc_buf ℕ ℕ hash files full).0 ≡ throw buffer_exceeded)
    × Unchanged ℕ ℕ full (alloc_buf ℕ ℕ hash files full).1
alloc_buf_exceeded_example = alloc_buf_exceeded ℕ ℕ hash files full full-IsSound both_pinned

released-IsFree : IsFree ℕ ℕ 0 released
unfolding program
released-IsFree = record { frame = omega arith; unpinned = λ _. refl }

alloc_buf_returns_example : (i : ℕ) × ((alloc_buf ℕ ℕ hash files released).0 ≡ ok i)
alloc_buf_returns_example =
    alloc_buf_returns ℕ ℕ hash files 0 released writes_succeed released-IsSound released-IsFree

-- Page 1 is still in frame 0, and is pinned again.
read_page_run : (read_page ℕ ℕ hash files 1 1 released).0 ≡ ok 0
unfolding program
read_page_run = refl

read_page-Reads_example :
    Reads ℕ ℕ hash files 1 1 released (read_page ℕ ℕ hash files 1 1 released).1 0
read_page-Reads_example =
    read_page-Reads ℕ ℕ hash files 1 1 0 released released-IsSound read_page_run

un_pin_page-read_page_example :
    let t = (read_page ℕ ℕ hash files 1 1 released).1 in
    let r = un_pin_page ℕ ℕ hash files 1 1 true t in
    (r.0 ≡ ok tt)
    × (pins ℕ ℕ hash files 1 1 r.1 ≡ pins ℕ ℕ hash files 1 1 released)
    × ((desc ℕ ℕ r.1 0).dirty ≡ (if true then true else (desc ℕ ℕ t 0).dirty))
un_pin_page-read_page_example =
    un_pin_page-read_page ℕ ℕ hash files 1 1 0 true released released-IsSound read_page_run

-- The third page takes the frame of the first.
alloc_page_run : (alloc_page ℕ ℕ hash files 1 released).0 ≡ ok (3, 0)
unfolding program
alloc_page_run = refl

alloc_page-Allots_example :
    Allots ℕ ℕ hash files 1 released (alloc_page ℕ ℕ hash files 1 released).1 3 0
alloc_page-Allots_example =
    alloc_page-Allots ℕ ℕ hash files 1 3 0 released released-IsSound alloc_page_run

-- Nobody uses either page.
abbrev idle : Pool
idle = call ℕ ℕ hash files (un_pinning 1 2 false) released

idle-IsSound : IsSound ℕ ℕ hash idle
idle-IsSound =
    Reachable-IsSound ℕ ℕ hash files idle
      (called released (un_pinning 1 2 false) released-Reachable)

flush_file_run : (flush_file ℕ ℕ hash files 1 idle).0 ≡ ok tt
unfolding program
flush_file_run = refl

flush_file_others_example :
    IsSound ℕ ℕ hash (flush_file ℕ ℕ hash files 1 idle).1
    × ((g q : ℕ)
        → g ≢ 1
        → view hash (flush_file ℕ ℕ hash files 1 idle).1.hash_table g q
          ≡ view hash idle.hash_table g q)
flush_file_others_example = flush_file_others ℕ ℕ hash files 1 idle idle-IsSound

flush_file_gone_example : view hash (flush_file ℕ ℕ hash files 1 idle).1.hash_table 1 2 ≡ none
flush_file_gone_example = flush_file_gone ℕ ℕ hash files 1 idle 2 idle-IsSound flush_file_run

not_in_use : NotInUse ℕ ℕ hash files 1 idle
unfolding program
not_in_use zero used file = refl
not_in_use (suc zero) used file = refl
not_in_use (suc (suc k)) used file = refl

flush_file_returns_example : (flush_file ℕ ℕ hash files 1 idle).0 ≡ ok tt
flush_file_returns_example =
    flush_file_returns ℕ ℕ hash files 1 idle writes_succeed one_named idle-IsSound not_in_use

dispose_page_gone_example :
    let r = dispose_page ℕ ℕ hash files 1 2 released in
    (r.0 ≡ ok tt)
    × IsSound ℕ ℕ hash r.1
    × ((g q : ℕ)
        → view hash r.1.hash_table g q
          ≡ (if same_page 1 2 g q then none else view hash released.hash_table g q))
dispose_page_gone_example = dispose_page_gone ℕ ℕ hash files 1 2 released released-IsSound

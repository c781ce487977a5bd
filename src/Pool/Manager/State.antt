-- ===== src/Pool/Manager/State.antt =====
-- The state of badgerdb::BufMgr of p2/src/buffer.h: the descriptors of the frames, and what the manager
-- asks of class File. A page is of a type `P`; the files on disk are one state `D`.
use cs564_projects.Prelude.{
  ℕ, zero, suc, ◌+◌, ◌-◌, ◌*◌, ◌/◌, ◌%◌, Bool, true, false, List, [], ◌∷◌, if◌then◌else◌, get_or,
  set,
}
use cs564_projects.Pool.Outcome.{Outcome, Method}
use cs564_projects.Pool.HashTable.{BufHashTbl}

-- What the manager asks of class File; the first argument is the file's name.
pub record Files (P D : Type 0) : Type 0 where
  pub new_page : P
  pub page_number : P → ℕ
  pub read_page : ℕ → ℕ → D → Outcome P
  pub write_page : ℕ → P → Method D (Unit {0})
  pub allocate_page : ℕ → Method D P
  pub delete_page : ℕ → ℕ → Method D (Unit {0})

pub record BufDesc : Type 0 where
  pub file : ℕ
  pub page_no : ℕ
  pub frame_no : ℕ
  pub pin_cnt : ℕ
  pub dirty : Bool
  pub valid : Bool
  pub refbit : Bool

-- The empty name, of `File()`.
abbrev pub no_file : ℕ
no_file = 0

-- `BufDesc::clear`
unfoldable pub clear : BufDesc → BufDesc
clear d = record d {
  pin_cnt = 0;
  file = no_file;
  page_no = 0;
  dirty = false;
  refbit = false;
  valid = false;
}

-- `BufDesc::Set`
unfoldable pub assign : ℕ → ℕ → BufDesc → BufDesc
assign file page_no d = record d {
  file = file;
  page_no = page_no;
  pin_cnt = 1;
  dirty = false;
  valid = true;
  refbit = true;
}

-- What `BufMgr::readPage` and `BufMgr::unPinPage` do to the descriptor of a page in the pool.
unfoldable pub pin : BufDesc → BufDesc
pin d = record d { refbit = true; pin_cnt = d.pin_cnt + 1 }

unfoldable pub unpin : Bool → BufDesc → BufDesc
unpin dirty d = record d { pin_cnt = d.pin_cnt - 1; dirty = if dirty then true else d.dirty }

-- What a read past the table would give.
abbrev pub no_desc : BufDesc
no_desc = record {
  file = no_file;
  page_no = 0;
  frame_no = 0;
  pin_cnt = 0;
  dirty = false;
  valid = false;
  refbit = false;
}

pub record BufMgr (P D : Type 0) : Type 0 where
  pub clock_hand : ℕ
  pub num_bufs : ℕ
  pub hash_table : BufHashTbl
  pub descs : List BufDesc
  pub pool : List P
  pub disk : D

-- `HASHTABLE_SZ`: the product by 1.2 rounded down, its lowest bit cleared, plus 1
unfoldable pub hashtable_sz : ℕ → ℕ
hashtable_sz bufs = bufs * 6 / 5 - bufs * 6 / 5 % 2 + 1

-- The descriptors of the constructor: cleared, each with its frame number.
unfoldable pub fresh_descs : ℕ → ℕ → List BufDesc
fresh_descs i zero = []
fresh_descs i (suc n) = record no_desc { frame_no = i } ∷ fresh_descs (suc i) n

module _ (P D : Type 0) where
  abbrev pub desc : BufMgr P D → ℕ → BufDesc
  desc s i = get_or s.descs i no_desc

  -- `bufDescTable[i] = d`
  abbrev pub put_desc : ℕ → BufDesc → BufMgr P D → BufMgr P D
  put_desc i d s = record s { descs = set s.descs i d }

  -- `BufMgr::advanceClock`
  unfoldable pub advance_clock : BufMgr P D → BufMgr P D
  advance_clock s = record s { clock_hand = (s.clock_hand + 1) % s.num_bufs }

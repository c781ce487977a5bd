-- ===== src/Files.antt =====
-- The page files of p3/src/file.cpp and file.h: badgerdb::PageFile, with the linked lists of its used and its
-- free pages. A page that is not on the disk reads as a blank one; the asserts are left out.
pub mod Tail
pub mod Reuse
pub mod Delete
mod Tests
use cs564_projects.Prelude.{
  ℕ, zero, suc, ◌+◌, ◌-◌, ◌%◌, ◌^◌, Bool, ◌||◌, Option, none, some, ltb, ◌==◌, if◌then◌else◌,
}

-- What a method returns or throws; `no_end` is for a loop that has used up its rounds.
pub data Result (A : Type 0) : Type 0 where
  ok : A → Result A
  invalid_page : ℕ → Result A
  no_end : Result A

-- struct FileHeader
pub record FileHeader : Type 0 where
  pub num_pages : ℕ
  pub first_used_page : ℕ
  pub num_free_pages : ℕ
  pub first_free_page : ℕ

-- A page: the numbers in its header, and the rest.
pub record Page (C : Type 0) : Type 0 where
  pub current_page_number : ℕ
  pub next_page_number : ℕ
  pub content : C

module _ {C : Type 0} (blank : C) where
  pub record PageFile : Type 0 where
    pub header : FileHeader
    pub pages : ℕ → Page C

  -- `File::File` with create_new
  abbrev pub create : PageFile
  create = record {
    header = record { num_pages = 1; first_used_page = 0; num_free_pages = 0; first_free_page = 0 };
    pages = λ p. record { current_page_number = 0; next_page_number = 0; content = blank };
  }

  -- The private `PageFile::writePage`
  unfoldable pub write_at : ℕ → Page C → PageFile → PageFile
  write_at p page f = record f { pages = λ q. if p == q then page else f.pages q }

  -- `PageFile::readPage`
  unfoldable pub read_page : ℕ → PageFile → Result (Page C)
  read_page p f =
      if ltb p f.header.num_pages
      then if (f.pages p).current_page_number == 0 then invalid_page p else ok (f.pages p)
      else invalid_page p

  -- The first page from `p` on, by an iterator, that a test accepts; `none` at the end.
  unfoldable pub find_page : (Page C → Bool) → ℕ → ℕ → PageFile → Result (Option (Page C))
  unfolding read_page
  find_page test zero p f = no_end
  find_page test (suc fuel) p f =
      let rest = find_page test fuel (f.pages p).next_page_number f in
      if p == 0 then ok none else elim (read_page p f) [
        | ok page ↦ if test page then ok (some page) else rest
        | invalid_page q ↦ invalid_page q
        | no_end ↦ no_end
      ]

  -- The end of allocatePage: the new page and, if it is linked from another, that one are written.
  unfoldable pub link :
      FileHeader → Page C → PageFile → Result (Option (Page C)) → Result (ℕ × PageFile)
  unfolding write_at
  link header new f (ok none) =
      ok (
        new.current_page_number,
        record (write_at new.current_page_number new f) { header = header },
      )
  link header new f (ok (some page)) =
      let page' = record page { next_page_number = new.current_page_number } in
      let f' = write_at page.current_page_number page' (write_at new.current_page_number new f) in
      ok (new.current_page_number, record f' { header = header })
  link header new f (invalid_page q) = invalid_page q
  link header new f no_end = no_end

  -- The number behind the page that a reused one is linked from.
  abbrev pub next_of : Result (Option (Page C)) → ℕ
  next_of (ok none) = 0
  next_of (ok (some page)) = page.next_page_number
  next_of (invalid_page q) = 0
  next_of no_end = 0

  -- The branch of allocatePage for a free page.
  unfoldable pub reuse_page : ℕ → PageFile → Result (ℕ × PageFile)
  unfolding find_page link
  reuse_page fuel f =
      let h = f.header in
      let n = h.first_free_page in
      let new = record (f.pages n) { current_page_number = n } in
      let header = record h {
        first_free_page = new.next_page_number;
        num_free_pages = h.num_free_pages - 1;
      } in
      let before =
        find_page (λ page. ltb n page.next_page_number || page.next_page_number == 0) fuel
          h.first_used_page f in
      let to_head =
        if ltb n h.first_used_page
        then record new { next_page_number = h.first_used_page }
        else new in
      if h.first_used_page == 0 || ltb n h.first_used_page
      then link (record header { first_used_page = n }) to_head f (ok none)
      else link header (record new { next_page_number = next_of before }) f before

  -- The branch of allocatePage for a file without a free page.
  unfoldable pub add_page : ℕ → PageFile → Result (ℕ × PageFile)
  unfolding find_page link
  add_page fuel f =
      let h = f.header in
      let n = h.num_pages in
      let new : Page C = record {
        current_page_number = n;
        next_page_number = 0;
        content = blank;
      } in
      let header = record h { num_pages = (n + 1) % 2 ^ 32 } in
      let last = find_page (λ page. page.next_page_number == 0) fuel h.first_used_page f in
      if h.first_used_page == 0
      then link (record header { first_used_page = n }) new f (ok none)
      else link header new f last

  -- `PageFile::allocatePage`
  unfoldable pub allocate_page : ℕ → PageFile → Result (ℕ × PageFile)
  unfolding reuse_page add_page
  allocate_page fuel f =
      if ltb 0 f.header.num_free_pages then reuse_page fuel f else add_page fuel f

  -- `PageFile::writePage`
  unfoldable pub write_page : ℕ → Page C → PageFile → Result PageFile
  unfolding write_at
  write_page p page f =
      if (f.pages p).current_page_number == 0
      then invalid_page p
      else ok (write_at p (record page { next_page_number = (f.pages p).next_page_number }) f)

  abbrev pub emptied : FileHeader → Page C
  emptied header = record {
    current_page_number = 0;
    next_page_number = header.first_free_page;
    content = blank;
  }

  -- The end of deletePage: the page that linked to it, if any, is written, and the page is cleared and put
  -- at the head of the free list.
  unfoldable pub detach : ℕ → ℕ → FileHeader → PageFile → Result (Option (Page C)) → Result PageFile
  unfolding write_at
  detach p next header f (ok none) = ok (record (write_at p (emptied header) f) {
    header = record header { first_free_page = p; num_free_pages = header.num_free_pages + 1 };
  })
  detach p next header f (ok (some page)) =
      let f' = write_at page.current_page_number (record page { next_page_number = next }) f in
      ok (record (write_at p (emptied header) f') {
        header = record header { first_free_page = p; num_free_pages = header.num_free_pages + 1 };
      })
  detach p next header f (invalid_page q) = invalid_page q
  detach p next header f no_end = no_end

  -- `PageFile::deletePage` of a page that is read
  unfoldable pub delete_read : ℕ → ℕ → PageFile → Result (Page C) → Result PageFile
  unfolding find_page detach
  delete_read fuel p f (ok page) =
      let h = f.header in
      let next = page.next_page_number in
      let before =
        find_page (λ other. other.next_page_number == page.current_page_number) fuel
          h.first_used_page f in
      if p == h.first_used_page
      then detach p next (record h { first_used_page = next }) f (ok none)
      else detach p next h f before
  delete_read fuel p f (invalid_page q) = invalid_page q
  delete_read fuel p f no_end = no_end

  -- `PageFile::deletePage`
  unfoldable pub delete_page : ℕ → ℕ → PageFile → Result PageFile
  unfolding read_page delete_read
  delete_page fuel p f = delete_read fuel p f (read_page p f)

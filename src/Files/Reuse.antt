-- ===== src/Files/Reuse.antt =====
-- A free page that PageFile::allocatePage of p3/src/file.cpp takes when no page is used.
use cs564_projects.Prelude.{
  ℕ, ◌-◌, ◌<◌, true, false, ltb, ◌==◌, ◌≡◌, ◌≢◌, ap, ◌∙◌, arith, suc, Bool, Bool-cases, inl, inr,
  ◌≤◌, if◌then◌else◌,
}
use cs564_projects.Files.{
  ok, invalid_page, Page, PageFile, write_at, read_page, find_page, link, reuse_page, allocate_page,
}

module _ {C : Type 0} (blank : C) (f : PageFile blank) where
  abbrev p : ℕ
  p = f.header.first_free_page

  abbrev q : ℕ
  q = (f.pages p).next_page_number

  -- The file after the allocation.
  abbrev pub reused : PageFile blank
  reused = record f {
    header = record f.header {
      first_used_page = p;
      first_free_page = q;
      num_free_pages = f.header.num_free_pages - 1;
    };
    pages = λ r. if p == r then record (f.pages p) { current_page_number = p } else f.pages r;
  }

  taken :
      (fuel : ℕ)
      → 0 < f.header.num_free_pages
      → f.header.first_used_page ≡ 0
      → allocate_page blank fuel f ≡ ok (p, reused)
  unfolding allocate_page reuse_page link write_at
  taken fuel free none_used =
      let a : ltb 0 f.header.num_free_pages ≡ true = ground arith in
      let b : (f.header.first_used_page == 0) ≡ true = ground arith in
      let c : ltb p f.header.first_used_page ≡ false = ground arith in rw (a, b, c)

  read-used :
      (r : ℕ)
      → r < f.header.num_pages
      → (reused.pages r).current_page_number ≡ r
      → 0 < r
      → read_page blank r reused ≡ ok (reused.pages r)
  unfolding read_page
  read-used r l same positive =
      let a : ltb r f.header.num_pages ≡ true = ground arith in
      let c : ((reused.pages r).current_page_number == 0) ≡ false = ground (arith, same) in
      rw (a, c)

  read-free : (reused.pages q).current_page_number ≡ 0 → read_page blank q reused ≡ invalid_page q
  unfolding read_page
  read-free unused =
      let c : ((reused.pages q).current_page_number == 0) ≡ true = ground (arith, unused) in
      elim (Bool-cases (ltb q f.header.num_pages)) [ inl l ↦ rw (l, c) | inr l ↦ rw l ]

  -- A round that finds a page and goes on.
  step :
      (test : Page C → Bool) (fuel r : ℕ) (page : Page C)
      → (r == 0) ≡ false
      → read_page blank r reused ≡ ok page
      → test page ≡ false
      → find_page blank test (suc fuel) r reused
        ≡ find_page blank test fuel (reused.pages r).next_page_number reused
  unfolding find_page
  step test fuel r page a read refused = rw (a, read, refused)

  -- Where two pages or more are free and none is used, allocatePage gives the first of the free pages `p`
  -- its number and leaves it linked to the second, `q`: an iterator over the used pages goes on from `p` to
  -- `q` and throws InvalidPageException there, whatever it looks for in the pages, but for what `p` has.
  pub allocate_page_broken :
      (fuel : ℕ) (test : Page C → Bool)
      → 2 ≤ f.header.num_free_pages
      → f.header.first_used_page ≡ 0
      → 0 < p
      → p < f.header.num_pages
      → 0 < q
      → p ≢ q
      → (f.pages q).current_page_number ≡ 0
      → test (reused.pages p) ≡ false
      → (allocate_page blank fuel f ≡ ok (p, reused))
        × (find_page blank test (suc (suc fuel)) reused.header.first_used_page reused
            ≡ invalid_page q)
  unfolding find_page
  allocate_page_broken fuel test free none_used used below more other unused refused =
      let page : reused.pages p ≡ record (f.pages p) { current_page_number = p } =
        let here : (p == p) ≡ true = ground arith in rw here in
      let first : read_page blank p reused ≡ ok (reused.pages p) =
        read-used p below (ap (λ (x : Page C). x.current_page_number) page) used in
      let second : read_page blank q reused ≡ invalid_page q =
        read-free (let there : (p == q) ≡ false = ground arith in rw there unused) in
      let a : (p == 0) ≡ false = ground arith in
      let b : (q == 0) ≡ false = ground arith in
      let next : (reused.pages p).next_page_number ≡ q =
        ap (λ (x : Page C). x.next_page_number) page in
      let at_q : find_page blank test (suc fuel) q reused ≡ invalid_page q =
        rw (b, second, find_page) in
      (
        taken fuel (omega arith) none_used,
        step test (suc fuel) p (reused.pages p) a first refused
            ∙ ap (λ x. find_page blank test (suc fuel) x reused) next
            ∙ at_q,
      )

-- ===== src/Files/Delete.antt =====
-- A page deleted by PageFile::deletePage of p3/src/file.cpp.
use cs564_projects.Prelude.{
  ℕ, ◌+◌, true, Option, none, some, ltb, ◌==◌, ◌≡◌, refl, ap, arith, Bool-cases, inl, inr,
}
use mathlib.Core.Path.{subst}
use cs564_projects.Files.{
  Result, ok, invalid_page, no_end, FileHeader, Page, PageFile, write_at, read_page, detach,
  delete_read, delete_page,
}

module _ {C : Type 0} (blank : C) where
  -- The page is free, the first of the free pages, and linked to the one that was.
  abbrev pub Freed : ℕ → PageFile blank → PageFile blank → Type 0
  Freed p f f' =
      (read_page blank p f' ≡ invalid_page p)
      × (f'.header.first_free_page ≡ p)
      × (f'.header.num_free_pages ≡ f.header.num_free_pages + 1)
      × ((f'.pages p).next_page_number ≡ f.header.first_free_page)

  -- A result that, if it is a file, is one with the page freed.
  abbrev FreedIn : ℕ → PageFile blank → Result (PageFile blank) → Type 0
  FreedIn p f (ok f') = Freed p f f'
  FreedIn p f (invalid_page q) = Unit
  FreedIn p f no_end = Unit

  emptied-Freed :
      (p : ℕ) (f f' : PageFile blank)
      → f'.header.first_free_page ≡ p
      → f'.header.num_free_pages ≡ f.header.num_free_pages + 1
      → f'.pages p ≡ record {
        current_page_number = 0;
        next_page_number = f.header.first_free_page;
        content = blank;
      }
      → Freed p f f'
  unfolding read_page
  emptied-Freed p f f' a b page =
      let none_here : (f'.pages p).current_page_number ≡ 0 =
        ap (λ (x : Page C). x.current_page_number) page in
      let t : ((f'.pages p).current_page_number == 0) ≡ true = ground (arith, none_here) in
      (
        elim (Bool-cases (ltb p f'.header.num_pages)) [ inl l ↦ rw (l, t) | inr l ↦ rw l ],
        a,
        b,
        ap (λ (x : Page C). x.next_page_number) page,
      )

  detach-Freed :
      (p next : ℕ) (header : FileHeader) (f : PageFile blank) (x : Result (Option (Page C)))
      → header.first_free_page ≡ f.header.first_free_page
      → header.num_free_pages ≡ f.header.num_free_pages
      → FreedIn p f (detach blank p next header f x)
  unfolding detach write_at
  detach-Freed p next header f (ok none) a b =
      let here : (p == p) ≡ true = ground arith in
      emptied-Freed p f _ refl (omega arith)
        (rw here (λ i. record { current_page_number = 0; next_page_number = a i; content = blank }))
  detach-Freed p next header f (ok (some page)) a b =
      let here : (p == p) ≡ true = ground arith in
      emptied-Freed p f _ refl (omega arith)
        (rw here (λ i. record { current_page_number = 0; next_page_number = a i; content = blank }))
  detach-Freed p next header f (invalid_page q) a b = tt
  detach-Freed p next header f no_end a b = tt

  delete_read-Freed :
      (fuel p : ℕ) (f : PageFile blank) (x : Result (Page C))
      → FreedIn p f (delete_read blank fuel p f x)
  unfolding delete_read
  delete_read-Freed fuel p f (ok page) = elim (Bool-cases (p == f.header.first_used_page)) [
    | inl t ↦ rw t (
        detach-Freed p page.next_page_number
          (record f.header { first_used_page = page.next_page_number }) f (ok none) refl refl)
    | inr t ↦ rw t (detach-Freed p page.next_page_number f.header f _ refl refl)
  ]
  delete_read-Freed fuel p f (invalid_page q) = tt
  delete_read-Freed fuel p f no_end = tt

  -- When deletePage returns, reading the page throws InvalidPageException, and the page is the first free
  -- one, linked to the one that was, and counted among the free pages.
  pub delete_page-Freed :
      (fuel p : ℕ) (f f' : PageFile blank) → delete_page blank fuel p f ≡ ok f' → Freed p f f'
  unfolding delete_page
  delete_page-Freed fuel p f f' run =
      subst (FreedIn p f) run (delete_read-Freed fuel p f (read_page blank p f))

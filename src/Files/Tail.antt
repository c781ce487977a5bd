-- ===== src/Files/Tail.antt =====
-- A page that PageFile::allocatePage of p3/src/file.cpp adds behind the used ones.
use cs564_projects.Prelude.{
  ℕ, zero, suc, ◌+◌, ◌%◌, ◌^◌, ◌<◌, true, false, List, [], ◌∷◌, ◌++◌, some, ltb, ◌==◌,
  if◌then◌else◌, ◌≡◌, refl, ap, sym, ◌∙◌, arith, Bool-cases, inl, inr, length,
}
use mathlib.Core.Path.{subst}
use cs564_projects.Files.{
  ok, Page, PageFile, write_at, read_page, find_page, link, add_page, allocate_page,
}

abbrev pub last_of : ℕ → List ℕ → ℕ
last_of u [] = u
last_of u (v ∷ us) = last_of v us

module _ {C : Type 0} where
  -- The pages from `p` on are linked as in the list, their numbers above `lo` and in order, below `n`.
  abbrev pub Linked : (ℕ → Page C) → ℕ → ℕ → ℕ → List ℕ → Type 0
  Linked pages n lo p [] = p ≡ 0
  Linked pages n lo p (u ∷ us) =
      (p ≡ u)
      × (lo < u)
      × (u < n)
      × ((pages u).current_page_number ≡ u)
      × Linked pages n u (pages u).next_page_number us

  module _ (blank : C) (f : PageFile blank) where
    read-Linked :
        (u : ℕ)
        → 0 < u
        → u < f.header.num_pages
        → (f.pages u).current_page_number ≡ u
        → read_page blank u f ≡ ok (f.pages u)
    unfolding read_page
    read-Linked u p l e =
        let a : ltb u f.header.num_pages ≡ true = ground arith in
        let c : ((f.pages u).current_page_number == 0) ≡ false = ground arith in rw (a, c)

    -- The last page of the list is found.
    find_last :
        (fuel lo p u : ℕ) (us : List ℕ)
        → length us < fuel
        → Linked f.pages f.header.num_pages lo p (u ∷ us)
        → (find_page blank (λ page. page.next_page_number == 0) fuel p f
            ≡ ok (some (f.pages (last_of u us))))
          × ((f.pages (last_of u us)).current_page_number ≡ last_of u us)
    unfolding find_page
    find_last zero lo p u us room linked = absurd (omega arith)
    find_last (suc fuel) lo p u [] room (e, l, m, c, next) =
        let read = read-Linked u (omega arith) m c in
        let t : (u == 0) ≡ false = ground arith in
        let last : ((f.pages u).next_page_number == 0) ≡ true = ground arith in
        (
          subst
              (λ x.
                find_page blank (λ page. page.next_page_number == 0) (suc fuel) x f
                ≡ ok (some (f.pages u)))
              (sym e) (rw (t, read, last)),
          c,
        )
    find_last (suc fuel) lo p u (v ∷ us) room (e, l, m, c, next) =
        let read = read-Linked u (omega arith) m c in
        let t : (u == 0) ≡ false = ground arith in
        let more : ((f.pages u).next_page_number == 0) ≡ false =
          let a = next.0 in let b = next.1 in ground arith in
        let (rest, same) = find_last fuel u (f.pages u).next_page_number v us (omega arith) next in
        (
          subst
              (λ x.
                find_page blank (λ page. page.next_page_number == 0) (suc fuel) x f
                ≡ ok (some (f.pages (last_of v us))))
              (sym e) (rw (t, read, more, rest)),
          same,
        )

  Linked-last :
      (pages : ℕ → Page C) (n lo p u : ℕ) (us : List ℕ)
      → Linked pages n lo p (u ∷ us)
      → (lo < last_of u us) × (last_of u us < n)
  Linked-last pages n lo p u [] (e, l, m, c, next) = (l, m)
  Linked-last pages n lo p u (v ∷ us) (e, l, m, c, next) =
      let (a, b) = Linked-last pages n u (pages u).next_page_number v us next in (omega arith, b)

  -- A list of pages that is kept, but for its last page, which is linked to a new one.
  Linked-extend :
      (pages pages' : ℕ → Page C) (n lo p u : ℕ) (us : List ℕ)
      → Linked pages n lo p (u ∷ us)
      → ((q : ℕ) → q < n → (pages' q).current_page_number ≡ (pages q).current_page_number)
      → ((q : ℕ) → q < last_of u us → (pages' q).next_page_number ≡ (pages q).next_page_number)
      → (pages' (last_of u us)).next_page_number ≡ n
      → (pages' n).current_page_number ≡ n
      → (pages' n).next_page_number ≡ 0
      → Linked pages' (n + 1) lo p ((u ∷ us) ++ (n ∷ []))
  Linked-extend pages pages' n lo p u [] (e, l, m, c, next) same kept to_new current end =
      (e, l, omega arith, same u m ∙ c, (to_new, m, omega arith, current, end))
  Linked-extend pages pages' n lo p u (v ∷ us) (e, l, m, c, next) same kept to_new current end =
      let rest =
        Linked-extend pages pages' n u (pages u).next_page_number v us next same kept to_new current
          end in
      let (later, below) = Linked-last pages n u (pages u).next_page_number v us next in
      (
        e,
        l,
        omega arith,
        same u m ∙ c,
        subst (λ x. Linked pages' (n + 1) u x ((v ∷ us) ++ (n ∷ []))) (sym (kept u later)) rest,
      )

  kept_field :
      {A : Type 0} (g : Page C → A) (pages : ℕ → Page C) {c last n : ℕ} (same : c ≡ last) (q : ℕ)
      (page new : Page C)
      → g page ≡ g (pages last)
      → q < n
      → g (if c == q then page else if n == q then new else pages q) ≡ g (pages q)
  kept_field g pages {c} {last} {n} same q page new e l =
      let other : (n == q) ≡ false = ground arith in
      elim (Bool-cases (c == q)) [
        | inl t ↦
            let at_last : last ≡ q = ground (arith, same) in
            rw t (e ∙ ap (λ i. g (pages i)) at_last)
        | inr t ↦ rw (t, other)
      ]

  -- What allocatePage leaves when it adds a page behind those in use.
  pub record Added (blank : C) (f : PageFile blank) (us : List ℕ) (f' : PageFile blank)
      : Type 0 where
    pub used :
        Linked f'.pages
          (f.header.num_pages + 1)
          0
          f'.header.first_used_page
          (us ++ (f.header.num_pages ∷ []))
    pub num_pages : f'.header.num_pages ≡ f.header.num_pages + 1
    pub free :
        (f'.header.num_free_pages ≡ f.header.num_free_pages)
        × (f'.header.first_free_page ≡ f.header.first_free_page)
    pub new : (f'.pages f.header.num_pages).content ≡ blank
    pub contents : (q : ℕ) → q < f.header.num_pages → (f'.pages q).content ≡ (f.pages q).content

  module _ (blank : C) (f : PageFile blank) where
    abbrev n : ℕ
    n = f.header.num_pages

    abbrev new_page : Page C
    new_page = record { current_page_number = n; next_page_number = 0; content = blank }

    add_first :
        (fuel : ℕ)
        → 0 < n
        → n + 1 < 2 ^ 32
        → f.header.first_used_page ≡ 0
        → (f' : PageFile blank) × (add_page blank fuel f ≡ ok (n, f')) × Added blank f [] f'
    unfolding add_page link write_at
    add_first fuel positive small none_used =
        let t : (f.header.first_used_page == 0) ≡ true = ground arith in
        let here : (n == n) ≡ true = ground arith in
        let header = record f.header { num_pages = (n + 1) % 2 ^ 32; first_used_page = n } in
        (
          record (write_at blank n new_page f) { header = header },
          rw t,
          record {
            used = (refl, positive, omega arith, rw here, rw here);
            num_pages = omega arith;
            free = (refl, refl);
            new = rw here;
            contents = λ q l. let other : (n == q) ≡ false = ground arith in rw other;
          },
        )

    add_behind :
        (fuel u : ℕ) (us : List ℕ)
        → length us < fuel
        → n + 1 < 2 ^ 32
        → Linked f.pages n 0 f.header.first_used_page (u ∷ us)
        → (f' : PageFile blank) × (add_page blank fuel f ≡ ok (n, f')) × Added blank f (u ∷ us) f'
    unfolding add_page link write_at
    add_behind fuel u us room small linked =
        let last = last_of u us in
        let (found, current) = find_last blank f fuel 0 f.header.first_used_page u us room linked in
        let (positive, below) = Linked-last f.pages n 0 f.header.first_used_page u us linked in
        let t : (f.header.first_used_page == 0) ≡ false =
          let a = linked.0 in let b = linked.1 in ground arith in
        let linked_page : Page C = record (f.pages last) { next_page_number = n } in
        let f' : PageFile blank =
          record (write_at blank (f.pages last).current_page_number linked_page
            (write_at blank n new_page f)) {
              header = record f.header { num_pages = (n + 1) % 2 ^ 32 };
            } in
        let here : (n == n) ≡ true = ground arith in
        let last_here : ((f.pages last).current_page_number == last) ≡ true = ground arith in
        let not_new : ((f.pages last).current_page_number == n) ≡ false = ground arith in
        (
          f',
          rw (t, found),
          record {
            used =
                Linked-extend f.pages f'.pages n 0 f.header.first_used_page u us linked
                  (λ q l.
                    kept_field (λ x. x.current_page_number) f.pages current q linked_page new_page
                      refl l)
                  (λ q l.
                    let a : ((f.pages last).current_page_number == q) ≡ false = ground arith in
                    let c : (n == q) ≡ false = ground arith in rw (a, c))
                  (rw last_here) (rw (not_new, here)) (rw (not_new, here));
            num_pages = omega arith;
            free = (refl, refl);
            new = rw (not_new, here);
            contents =
                λ q l. kept_field (λ x. x.content) f.pages current q linked_page new_page refl l;
          },
        )

    add :
        (fuel : ℕ) (us : List ℕ)
        → length us < fuel
        → 0 < n
        → n + 1 < 2 ^ 32
        → Linked f.pages n 0 f.header.first_used_page us
        → (f' : PageFile blank) × (add_page blank fuel f ≡ ok (n, f')) × Added blank f us f'
    add fuel [] room positive small linked = add_first fuel positive small linked
    add fuel (u ∷ us) room positive small linked = add_behind fuel u us (omega arith) small linked

    taken :
        (fuel : ℕ)
        → f.header.num_free_pages ≡ 0
        → allocate_page blank fuel f ≡ add_page blank fuel f
    unfolding allocate_page
    taken fuel none_free = let t : ltb 0 f.header.num_free_pages ≡ false = ground arith in rw t

    -- Where no page is free, the next number has one behind it in 32 bits, and the used pages are linked in
    -- the order of their numbers, allocatePage returns the next number, after at most as many rounds as
    -- pages are used and one more, and leaves the used pages linked with the new, blank one behind them, and
    -- their contents and the free pages as they were.
    pub allocate_page-Added :
        (fuel : ℕ) (us : List ℕ)
        → length us < fuel
        → 0 < f.header.num_pages
        → f.header.num_pages + 1 < 2 ^ 32
        → f.header.num_free_pages ≡ 0
        → Linked f.pages f.header.num_pages 0 f.header.first_used_page us
        → (f' : PageFile blank) × (allocate_page blank fuel f ≡ ok (f.header.num_pages, f'))
          × Added blank f us f'
    allocate_page-Added fuel us room positive small none_free linked =
        let (f', run, added) = add fuel us room positive small linked in
        (f', taken fuel none_free ∙ run, added)

-- ===== src/Files/Tests.antt =====
-- Page files of p3 at concrete pages, whose contents are numbers.
use cs564_projects.Prelude.{ℕ, ◌+◌, [], ◌∷◌, ◌==◌, if◌then◌else◌, ◌≡◌, refl, arith}
use cs564_projects.Files.{
  ok, invalid_page, PageFile, allocate_page, find_page, read_page, delete_page,
}
use cs564_projects.Files.Delete.{delete_page-Freed}
use cs564_projects.Files.Tail.{Added, allocate_page-Added}
use cs564_projects.Files.Reuse.{reused, allocate_page_broken}

abbrev blank : ℕ
blank = 0

-- The pages 1 and 2 are used.
abbrev two_used : PageFile blank
two_used = record {
  header = record { num_pages = 3; first_used_page = 1; num_free_pages = 0; first_free_page = 0 };
  pages = λ p.
      if p == 1
      then record { current_page_number = 1; next_page_number = 2; content = 10 }
      else if p == 2
      then record { current_page_number = 2; next_page_number = 0; content = 20 }
      else record { current_page_number = 0; next_page_number = 0; content = 0 };
}

allocate_page-Added_example :
    (f : PageFile blank) × (allocate_page blank 3 two_used ≡ ok (3, f))
    × Added blank two_used (1 ∷ 2 ∷ []) f
allocate_page-Added_example =
    allocate_page-Added blank two_used 3 (1 ∷ 2 ∷ []) (omega arith) (omega arith) (omega arith) refl
      (refl, omega arith, omega arith, refl, (refl, omega arith, omega arith, refl, refl))

-- The pages 2 and 1 are free.
abbrev two_free : PageFile blank
two_free = record {
  header = record { num_pages = 3; first_used_page = 0; num_free_pages = 2; first_free_page = 2 };
  pages = λ p. record {
    current_page_number = 0;
    next_page_number = if p == 2 then 1 else 0;
    content = 0;
  };
}

allocate_page_broken_example :
    (allocate_page blank 5 two_free ≡ ok (2, reused blank two_free))
    × (find_page blank (λ page. page.next_page_number == 0) 7 2 (reused blank two_free)
        ≡ invalid_page 1)
allocate_page_broken_example =
    allocate_page_broken blank two_free 5 (λ page. page.next_page_number == 0) (omega arith) refl
      (omega arith) (omega arith) (omega arith) (omega arith) refl refl

-- The page 2 is deleted, and page 1 is then the last.
abbrev deleted : PageFile blank
deleted = record {
  header = record { num_pages = 3; first_used_page = 1; num_free_pages = 1; first_free_page = 2 };
  pages = λ p.
      if 2 == p
      then record { current_page_number = 0; next_page_number = 0; content = 0 }
      else if 1 == p
      then record { current_page_number = 1; next_page_number = 0; content = 10 }
      else two_used.pages p;
}

deleted_run : delete_page blank 5 2 two_used ≡ ok deleted
unfolding delete_page
deleted_run = refl

delete_page-Freed_example :
    (read_page blank 2 deleted ≡ invalid_page 2)
    × (deleted.header.first_free_page ≡ 2)
    × (deleted.header.num_free_pages ≡ two_used.header.num_free_pages + 1)
    × ((deleted.pages 2).next_page_number ≡ two_used.header.first_free_page)
delete_page-Freed_example = delete_page-Freed blank 5 2 two_used deleted deleted_run

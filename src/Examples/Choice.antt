-- ===== src/Examples/Choice.antt =====
-- Which page of the example site comes next, in each of the cases.
use spidercheck.Prelude.{
  ◌≤◌, ◌≡◌, ◌≢◌, refl, ◌↔◌, true, [], ◌∷◌, none, some, arith, keep, All, length,
}
use spidercheck.Prelude.Int.{pos, negsuc}
use spidercheck.Rows.Among.{Among}
use spidercheck.Models.{Page, Db}
use spidercheck.Sites.{next_page_to_check, pages_of, schedules_of, is_due, Schedule}
use spidercheck.Sites.Frontier.{next_page_to_check-Among}
use spidercheck.Sites.Priority.{next_page_to_check-none, next_page_to_check-due}
use spidercheck.Examples.{site, root, second, db}

abbrev failing : Page
failing = record root { is_checked = true; checked_at = 9; status = negsuc 0 }

abbrev fine : Page
fine = record second { is_checked = true; checked_at = 7; status = pos 200 }

-- The second page is to be checked again after three microseconds.
abbrev scheduled_db : Db
scheduled_db = record db {
  pages = failing ∷ fine ∷ [];
  scheduled = record { page = 2; rotation = 3; updated_at = 6; created_at = 6 } ∷ [];
}

abbrev errors_db : Db
errors_db = record db { pages = failing ∷ fine ∷ [] }

abbrev fine_db : Db
fine_db = record db {
  pages = record root { is_checked = true; checked_at = 9; status = pos 200 } ∷ fine ∷ [];
}

next_page_to_check-none_example :
    (next_page_to_check site db 20 0 ≡ none) ↔ (length (pages_of site db) ≡ 0)
next_page_to_check-none_example = next_page_to_check-none site db 20 0

next-root : next_page_to_check site db 20 0 ≡ some root
unfolding next_page_to_check spidercheck.Seq.first spidercheck.Sites.due_pages
    spidercheck.Rows.order_by keep schedules_of spidercheck.Sites.pages_with_errors
    spidercheck.Sites.all_queued_pages spidercheck.Rows.first_row
next-root = refl

next_page_to_check-Among_example : Among (pages_of site db) root
next_page_to_check-Among_example = next_page_to_check-Among site db 20 0 root next-root

due-one : length (keep (is_due 20) (schedules_of site scheduled_db)) ≡ 1
unfolding keep schedules_of spidercheck.Rows.first_row
due-one = refl

due-some : length (keep (is_due 20) (schedules_of site scheduled_db)) ≢ 0
due-some h = omega (arith, due-one)

next_page_to_check-due_example :
    (x : Schedule) × (next_page_to_check site scheduled_db 20 0 ≡ some x.page)
    × (is_due 20 x ≡ true)
    × Among (schedules_of site scheduled_db) x
    × All
        (λ y. x.page.checked_at ≤ y.page.checked_at)
        (keep (is_due 20) (schedules_of site scheduled_db))
next_page_to_check-due_example = next_page_to_check-due site scheduled_db 20 0 due-some

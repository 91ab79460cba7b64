-- ===== src/Sites/Priority.antt =====
-- In which order `Site.next_page_to_check` of src/spidercheck/models.py serves the pages: due
-- scheduled pages, then by chance the oldest error, then the queue.
use spidercheck.Prelude.{
  ℕ, ◌^◌, ◌⊎◌, ◌≤◌, ◌<◌, ◌≡◌, ◌≢◌, ◌↔◌, refl, ◌∙◌, none, some, true, ◌&&◌, List, [], ◌∷◌, arith,
  any, keep, All, length, ◌==◌, inl, inr, Bool-cases, Option-cases, All-imp,
}
use spidercheck.Rows.{order_by, first_row}
use spidercheck.Rows.Among.{
  Among, first_row-some, last_row-some, first-eq-first_row, length-order_by,
}
use spidercheck.Rows.Order.{first_row-order_by}
use spidercheck.Models.{Site, Page, Db}
use spidercheck.Sites.{
  pages_of, has_error, some_row, all_queued_pages, pages_with_errors, Schedule, by_schedule,
  schedules_of, is_due, due_pages, retry, after_schedule, next_page_to_check,
}
use spidercheck.Sites.Frontier.{
  by_schedule-IsOrder, length-queued-zero, due-Among, next_page_to_check-Among,
}

-- A table with no row has no row among it.
not-Among-empty : (xs : List Page) (p : Page) → length xs ≡ 0 → Among xs p → ⊥
unfolding any
not-Among-empty [] p h a = cc (a (λ _. true) refl)
not-Among-empty (x ∷ xs) p h a = absurd (omega arith)

module _ (s : Site) (db : Db) (now draw : ℕ) where
  after_schedule-some :
      length (pages_of s db) ≢ 0 → (p : Page) × (after_schedule s db draw none ≡ some p)
  unfolding after_schedule
  after_schedule-some h = elim (Bool-cases (some_row (pages_with_errors s db) && retry draw)) [
    | inl e ↦
        let (p, last) = last_row-some (pages_with_errors s db) (ground arith) in (p, rw (e, last))
    | inr e ↦ elim (Bool-cases (some_row (all_queued_pages s db))) [
      | inl f ↦
          let (p, head) = first_row-some (all_queued_pages s db) (ground arith) in
          (p, rw (e, f, head))
      | inr f ↦ absurd (h (length-queued-zero s db (ground arith)))
    ]
  ]

  next-quiet :
      first_row (due_pages s db now) ≡ none
      → next_page_to_check s db now draw ≡ after_schedule s db draw none
  unfolding next_page_to_check
  next-quiet e = rw (first-eq-first_row (due_pages s db now), e)

  next-due :
      (x : Schedule)
      → first_row (due_pages s db now) ≡ some x
      → next_page_to_check s db now draw ≡ some x.page
  unfolding next_page_to_check
  next-due x e = rw (first-eq-first_row (due_pages s db now), e)

  some_page : length (pages_of s db) ≢ 0 → (p : Page) × (next_page_to_check s db now draw ≡ some p)
  some_page h = elim (Option-cases (first_row (due_pages s db now))) [
    | inl quiet ↦ let (p, e) = after_schedule-some h in (p, next-quiet quiet ∙ e)
    | inr (x, due) ↦ (x.page, next-due x due)
  ]

  -- `next_page_to_check` returns nothing exactly when the site has no page.
  pub next_page_to_check-none :
      (next_page_to_check s db now draw ≡ none) ↔ (length (pages_of s db) ≡ 0)
  next_page_to_check-none = (
    λ e. elim (Bool-cases (length (pages_of s db) == 0)) [
      | inl h ↦ ground arith
      | inr h ↦ let (p, f) = some_page (ground arith) in absurd (cc)
    ],
    λ h. elim (Option-cases (next_page_to_check s db now draw)) [
      | inl e ↦ e
      | inr (p, e) ↦ absurd (not-Among-empty _ p h (next_page_to_check-Among s db now draw p e))
    ],
  )

  -- If a scheduled page of the site is due, `next_page_to_check` returns a scheduled page of the
  -- site that is due, and no due page of the site was checked longer ago.
  pub next_page_to_check-due :
      length (keep (is_due now) (schedules_of s db)) ≢ 0
      → (x : Schedule) × (next_page_to_check s db now draw ≡ some x.page)
        × (is_due now x ≡ true)
        × Among (schedules_of s db) x
        × All (λ y. x.page.checked_at ≤ y.page.checked_at) (keep (is_due now) (schedules_of s db))
  next_page_to_check-due h =
      let due = keep (is_due now) (schedules_of s db) in
      let (x, e) =
        first_row-some (order_by by_schedule due)
          (ground (arith, length-order_by by_schedule due)) in
      let head : first_row (due_pages s db now) ≡ some x = unfold due_pages in e in
      let (row, late) = due-Among s db now x head in
      (
        x,
        next-due x head,
        late,
        row,
        All-imp due (λ y k. ground arith)
            (first_row-order_by by_schedule by_schedule-IsOrder due x e),
      )

  -- The error branch is not taken.
  abbrev NoRetry : Type 0
  NoRetry = (length (keep has_error (pages_of s db)) ≡ 0) ⊎ (2 ^ 52 < draw)

-- ===== src/Sites/Frontier.antt =====
-- Which page `Site.next_page_to_check` of src/spidercheck/models.py returns.
use spidercheck.Prelude.{
  ℕ, ◌≡◌, none, some, Bool, true, ◌&&◌, List, [], ◌∷◌, arith, any, keep, length, ◌==◌, inl, inr,
  Bool-cases, Option-cases,
}
use spidercheck.Rows.{order_by, first_row}
use spidercheck.Rows.Among.{
  Among, first_row-Among, last_row-Among, order_by-Among, keep-Among, first-eq-first_row,
  length-order_by, length-keep-add,
}
use spidercheck.Rows.Laws.{any-keep-and}
use spidercheck.Rows.Order.{IsOrder}
use spidercheck.Models.{Site, Page, ScheduledPage, Db}
use spidercheck.Tables.{has_id, in_site}
use spidercheck.Sites.{
  pages_of, by_created, by_checked, by_checked_desc, checked, unchecked, has_error, some_row,
  all_queued_pages, pages_with_errors, Schedule, beside, joined, by_schedule, schedules_of, is_due,
  due_pages, retry, after_schedule, next_page_to_check,
}

pub by_created-IsOrder : IsOrder by_created
by_created-IsOrder = record { total = λ x y h. ground arith; trans = λ x y z h k. ground arith }

pub by_checked-IsOrder : IsOrder by_checked
by_checked-IsOrder = record { total = λ x y h. ground arith; trans = λ x y z h k. ground arith }

pub by_checked_desc-IsOrder : IsOrder by_checked_desc
by_checked_desc-IsOrder = record {
  total = λ x y h. ground arith;
  trans = λ x y z h k. ground arith;
}

pub by_schedule-IsOrder : IsOrder by_schedule
by_schedule-IsOrder = record { total = λ x y h. ground arith; trans = λ x y z h k. ground arith }

-- The page of a schedule is a row of the table.
any-joined :
    (t : Page → Bool) (pages : List Page) (rows : List ScheduledPage)
    → any (λ x. t x.page) (joined pages rows) ≡ true
    → any t pages ≡ true
unfolding any joined beside
any-joined t pages [] h = cc
any-joined t pages (row ∷ rows) h = elim (Option-cases (first_row (keep (has_id row.page) pages))) [
  | inl absent ↦ any-joined t pages rows (rw absent at h)
  | inr (p, found) ↦ elim (Bool-cases (t p)) [
    | inl e ↦ (keep-Among (has_id row.page) pages p (first_row-Among _ p found)).0 t e
    | inr e ↦ any-joined t pages rows (rw (found, e) at h)
  ]
]

module _ (s : Site) (db : Db) where
  -- A scheduled page of the site is one of its pages.
  pub schedules_of-Among :
      (x : Schedule) → Among (schedules_of s db) x → Among (pages_of s db) x.page
  unfolding schedules_of
  schedules_of-Among x h t e =
      let owned : Schedule → Bool = λ y. y.page.site == s.id_site in
      let (in_joined, own) = keep-Among owned (joined db.pages db.scheduled) x h in
      rw (any-keep-and t (in_site s.id_site) db.pages) (
        any-joined (λ p. t p && in_site s.id_site p) db.pages db.scheduled
          (in_joined (λ y. t y.page && owned y) (ground arith)))

  pub queued-Among : (p : Page) → Among (all_queued_pages s db) p → Among (pages_of s db) p
  unfolding all_queued_pages
  queued-Among p h =
      elim (Bool-cases (some_row (order_by by_created (keep unchecked (pages_of s db))))) [
        | inl e ↦ (keep-Among unchecked _ p (order_by-Among by_created _ p (rw e at h))).0
        | inr e ↦ (keep-Among checked _ p (order_by-Among by_checked _ p (rw e at h))).0
      ]

  pub length-queued-zero : length (all_queued_pages s db) ≡ 0 → length (pages_of s db) ≡ 0
  unfolding all_queued_pages
  length-queued-zero h = ground (
    arith,
    length-order_by by_created (keep unchecked (pages_of s db)),
    length-order_by by_checked (keep checked (pages_of s db)),
    length-keep-add checked (pages_of s db),
  )

  pub errors-Among :
      (p : Page) → Among (pages_with_errors s db) p → Among (pages_of s db) p × (has_error p ≡ true)
  unfolding pages_with_errors
  errors-Among p h = keep-Among has_error _ p (order_by-Among by_checked_desc _ p h)

  after_schedule-Among :
      (draw : ℕ) (p : Page) → after_schedule s db draw none ≡ some p → Among (pages_of s db) p
  unfolding after_schedule
  after_schedule-Among draw p h =
      elim (Bool-cases (some_row (pages_with_errors s db) && retry draw)) [
        | inl e ↦ (errors-Among p (last_row-Among _ p (rw e at h))).0
        | inr e ↦ elim (Bool-cases (some_row (all_queued_pages s db))) [
          | inl f ↦ queued-Among p (first_row-Among _ p (rw (e, f) at h))
          | inr f ↦ order_by-Among by_checked _ p (first_row-Among _ p (rw (e, f) at h))
        ]
      ]

  pub due-Among :
      (now : ℕ) (x : Schedule)
      → first_row (due_pages s db now) ≡ some x
      → Among (schedules_of s db) x × (is_due now x ≡ true)
  unfolding due_pages
  due-Among now x h =
      keep-Among (is_due now) _ x (order_by-Among by_schedule _ x (first_row-Among _ x h))

  module _ (now draw : ℕ) where
    -- A page that `next_page_to_check` returns is a row of the pages of the site.
    pub next_page_to_check-Among :
        (p : Page) → next_page_to_check s db now draw ≡ some p → Among (pages_of s db) p
    unfolding next_page_to_check
    next_page_to_check-Among p h = elim (Option-cases (first_row (due_pages s db now))) [
      | inl quiet ↦
          after_schedule-Among draw p (rw (first-eq-first_row (due_pages s db now), quiet) at h)
      | inr (x, due) ↦
          let e : x.page ≡ p = ground (arith, first-eq-first_row (due_pages s db now)) in
          rw (← e) (schedules_of-Among x (due-Among now x due).0)
    ]

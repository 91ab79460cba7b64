-- ===== src/Command/Bounds.antt =====
-- How many pages the orders `last` and `queue` of the management command show.
use spidercheck.Prelude.{
  ℕ, zero, suc, ◌+◌, ◌-◌, ◌≡◌, refl, ◌∙◌, min, Bool, ◌&&◌, leb, true, false, List, [], ◌∷◌, some,
  Text, codes, arith, length, take, length-take, inl, inr, Bool-cases,
}
use spidercheck.Prelude.Int.{ℤ, pos, negsuc, leb_ℤ}
use spidercheck.Results.{Outcome, returned, raised, chain-eq-returned}
use spidercheck.Models.{Site, Page, Db}
use spidercheck.Urls.{UrlLib}
use spidercheck.Tables.{in_site}
use spidercheck.Seq.{count_if}
use spidercheck.Rows.Laws.{count_if-keep}
use spidercheck.Rows.Order.{count_if-order_by}
use spidercheck.Rows.Sorted.{IsSorted, order_by-IsSorted}
use spidercheck.Sites.{
  load_site_by_name, pages_of, checked, by_checked_desc, all_queued_pages, all_checked_pages,
}
use spidercheck.Sites.Frontier.{by_checked_desc-IsOrder}
use spidercheck.Console.{table, Console, lift, say, ◌>>=◌}
use spidercheck.Command.Lists.{
  Row, all_rows, rows_until, site_or_none, last_row_of, last_columns, cmd_last, queue_row,
  queue_columns, queue_title, cmd_queue,
}

-- How many rows the loop lets in: one more than was asked for, and at least one.
abbrev pub shown : ℤ → ℕ
shown (pos n) = n + 1
shown (negsuc n) = 1

left : ℤ → ℕ → ℕ
left (pos n) i = (n - i) + 1
left (negsuc n) i = 1

left-step : (num : ℤ) (i : ℕ) → leb_ℤ num (pos i) ≡ false → left num i ≡ suc (left num (i + 1))
unfolding left leb_ℤ
left-step (pos n) i h = ground arith
left-step (negsuc n) i h = cc

left-last : (num : ℤ) (i : ℕ) → leb_ℤ num (pos i) ≡ true → left num i ≡ 1
unfolding left leb_ℤ
left-last (pos n) i h = ground arith
left-last (negsuc n) i h = refl

take-nil : (n : ℕ) → take {A = Page} n [] ≡ []
take-nil zero = refl
take-nil (suc n) = refl

left-zero : (num : ℤ) → left num 0 ≡ shown num
unfolding left
left-zero (pos n) = omega arith
left-zero (negsuc n) = refl

module _ (row : Page → Outcome Row) where
  rows_until-take :
      (num : ℤ) (i : ℕ) (pages : List Page)
      → rows_until row num i pages ≡ all_rows row (take (left num i) pages)
  unfolding rows_until all_rows
  rows_until-take num i [] = rw (take-nil (left num i)) refl
  rows_until-take num i (p ∷ pages) = elim (Bool-cases (leb_ℤ num (pos i))) [
    | inl stop ↦ rw (left-last num i stop, stop) refl
    | inr on ↦ rw (left-step num i on, on, rows_until-take num (i + 1) pages) refl
  ]

  length-all_rows :
      (pages : List Page) (rows : List Row)
      → all_rows row pages ≡ returned rows
      → length rows ≡ length pages
  unfolding all_rows
  length-all_rows [] rows h = ground arith
  length-all_rows (p ∷ pages) rows h =
      let (r, made, rest) = chain-eq-returned (row p) _ h in
      let (rs, more, e) = chain-eq-returned (all_rows row pages) _ rest in
      ground (arith, e, length-all_rows pages rs more)

  -- Rows that are all there are as many as the pages.
  rows_shown :
      (num : ℤ) (pages : List Page) (rows : List Row)
      → all_rows row (take (shown num) pages) ≡ returned rows
      → length rows ≡ min (shown num) (length pages)
  rows_shown num pages rows h =
      length-all_rows (take (shown num) pages) rows h ∙ length-take (shown num) pages

-- A table is printed once all its rows are there, and nothing before.
abbrev pub table_of : Text → List Text → Outcome (List Row) → Console Unit
table_of title columns (returned rows) db =
    (table (some title) columns rows ∷ [], (returned tt, db))
table_of title columns (raised e) db = ([], (raised e, db))

print-table_of :
    (title : Text) (columns : List Text) (rows : Outcome (List Row)) (db : Db)
    → (lift rows >>= λ rs. say (table (some title) columns rs)) db ≡ table_of title columns rows db
print-table_of title columns (returned rows) db = refl
print-table_of title columns (raised e) db = refl

module _ (urls : UrlLib) (name : Text) (num : ℤ) (s : Site) (db : Db)
    (found : load_site_by_name name db ≡ some s) where
  -- If the site exists, the order `last` shows the first of the pages of the site that were checked,
  -- each once and those checked last in front: `num + 1` of them where `num` is not negative and
  -- there are so many, one where `num` is negative and there is one, and otherwise all. It prints one
  -- table with a row for each of them, or, if the address of one of them cannot be formed, nothing,
  -- and it leaves the database as it was.
  pub cmd_last_lem :
      (pages : List Page) × (cmd_last urls name num db
        ≡ table_of
            (codes "Last links")
            last_columns
            (all_rows (last_row_of urls s db) (take (shown num) pages))
            db)
      × ((t : Page → Bool)
          → count_if pages t
            ≡ count_if db.pages (λ p. in_site s.id_site p && (p.is_checked && t p)))
      × IsSorted (λ p q. leb q.checked_at p.checked_at) pages
      × ((rows : List Row)
          → all_rows (last_row_of urls s db) (take (shown num) pages) ≡ returned rows
          → length rows ≡ min (shown num) (length pages))
  unfolding cmd_last site_or_none all_checked_pages
  cmd_last_lem = (
    all_checked_pages s db,
    rw
        (
          found,
          rows_until-take (last_row_of urls s db) num 0 (all_checked_pages s db),
          left-zero num,
        )
        (print-table_of _ _ _ db),
    (λ t.
        count_if-order_by by_checked_desc t _
        ∙ count_if-keep t checked (pages_of s db)
        ∙ count_if-keep (λ p. p.is_checked && t p) (in_site s.id_site) db.pages),
    order_by-IsSorted by_checked_desc by_checked_desc-IsOrder _,
    rows_shown (last_row_of urls s db) num (all_checked_pages s db),
  )

  -- If the site exists, the order `queue` prints the number of pages in the queue, and shows its
  -- first pages, as many as `last` shows: `num + 1` of them where `num` is not negative, one where it is
  -- negative, and all where there are fewer. If the address of one cannot be formed it prints
  -- nothing. It leaves the database as it was.
  pub cmd_queue_lem :
      (now : ℕ)
      → (cmd_queue urls name num now db
          ≡ table_of
              (queue_title name (length (all_queued_pages s db)))
              queue_columns
              (all_rows (queue_row urls s now) (take (shown num) (all_queued_pages s db)))
              db)
        × ((rows : List Row)
            → all_rows (queue_row urls s now) (take (shown num) (all_queued_pages s db))
              ≡ returned rows
            → length rows ≡ min (shown num) (length (all_queued_pages s db)))
  unfolding cmd_queue site_or_none
  cmd_queue_lem now = (
    rw (found, rows_until-take (queue_row urls s now) num 0 (all_queued_pages s db), left-zero num)
        (print-table_of _ _ _ db),
    rows_shown (queue_row urls s now) num (all_queued_pages s db),
  )

-- ===== src/Sites.antt =====
-- The methods of `Site` in src/spidercheck/models.py: the queries over the pages of a site, the
-- next page to check, and the pages that links add.
pub mod Frontier
pub mod Priority
pub mod Pages
pub mod Search
pub mod Counts
use spidercheck.Prelude.{
  ℕ, ◌+◌, ◌^◌, Bool, true, false, not, ◌&&◌, ◌||◌, List, [], ◌∷◌, Option, none, some, Text, text_eq,
  length, keep, ltb, leb, ◌==◌, if◌then◌else◌,
}
use spidercheck.Prelude.Int.{ℤ, between}
use spidercheck.Results.{Outcome, returned, raised}
use spidercheck.Seq.{first, count_if}
use spidercheck.Rows.{order_by, first_row, last_row}
use spidercheck.Models.{Site, Page, ScheduledPage, Db, new_page}
use spidercheck.Action.{Action, pure, lift, ◌>>=◌}
use spidercheck.Tables.{has_id, in_site, at_url, is_named, insert_page}
use spidercheck.Urls.{SplitUrl, UrlLib}

-- `objects.get(name=name)`, `none` where it does not exist.
unfoldable pub load_site_by_name : Text → Db → Option Site
load_site_by_name name db = first_row (keep (is_named name) db.sites)

-- `self.pages`
abbrev pub pages_of : Site → Db → List Page
pages_of s db = keep (in_site s.id_site) db.pages

-- The orders of the queries: `created_at`, `checked_at`, and the same from the largest down.
abbrev pub by_created : Page → Page → Bool
by_created p q = leb p.created_at q.created_at

abbrev pub by_created_desc : Page → Page → Bool
by_created_desc p q = leb q.created_at p.created_at

abbrev pub by_checked : Page → Page → Bool
by_checked p q = leb p.checked_at q.checked_at

abbrev pub by_checked_desc : Page → Page → Bool
by_checked_desc p q = leb q.checked_at p.checked_at

abbrev pub checked : Page → Bool
checked p = p.is_checked

abbrev pub unchecked : Page → Bool
unchecked p = not p.is_checked

-- `filter(is_checked=True).exclude(status__range=(200, 300))`: both ends of the range are in it.
abbrev pub has_error : Page → Bool
has_error p = p.is_checked && not (between 200 300 p.status)

-- `count() > 0`
abbrev pub some_row {ℓ} : {A : Type ℓ} → List A → Bool
some_row rows = ltb 0 (length rows)

unfoldable pub all_queued_pages : Site → Db → List Page
all_queued_pages s db =
    let qset = order_by by_created (keep unchecked (pages_of s db)) in
    if some_row qset then qset else order_by by_checked (keep checked (pages_of s db))

-- The column `checked_at` is never NULL, so `exclude(checked_at=None)` keeps every row.
unfoldable pub all_checked_pages : Site → Db → List Page
all_checked_pages s db = order_by by_checked_desc (keep checked (pages_of s db))

unfoldable pub all_pending_pages : Site → Db → List Page
all_pending_pages s db = order_by by_created_desc (keep unchecked (pages_of s db))

unfoldable pub pages_with_errors : Site → Db → List Page
pages_with_errors s db = order_by by_checked_desc (keep has_error (pages_of s db))

unfoldable pub first_page_with_errors : Site → Db → Option Page
first_page_with_errors s db = first (pages_with_errors s db) (λ _. true) none

-- A scheduled page beside its page, as `select_related('page')` reads them.
pub record Schedule : Type 0 where
  pub row : ScheduledPage
  pub page : Page

beside : ScheduledPage → Option Page → List Schedule → List Schedule
beside row none rest = rest
beside row (some page) rest = record { row = row; page = page } ∷ rest

joined : List Page → List ScheduledPage → List Schedule
joined pages [] = []
joined pages (row ∷ rest) =
    beside row (first_row (keep (has_id row.page) pages)) (joined pages rest)

-- `ordering = ['page__checked_at', 'updated_at', 'created_at']`
abbrev pub by_schedule : Schedule → Schedule → Bool
by_schedule x y =
    if x.page.checked_at == y.page.checked_at
    then (if x.row.updated_at == y.row.updated_at
        then leb x.row.created_at y.row.created_at
        else ltb x.row.updated_at y.row.updated_at)
    else ltb x.page.checked_at y.page.checked_at

-- `ScheduledPage.objects.filter(page__site_id=self.pk)`, before its order.
unfoldable pub schedules_of : Site → Db → List Schedule
unfolding joined beside
schedules_of s db = keep (λ x. x.page.site == s.id_site) (joined db.pages db.scheduled)

unfoldable pub all_scheduled_pages : Site → Db → List Schedule
all_scheduled_pages s db = order_by by_schedule (schedules_of s db)

-- The watermark, `page__checked_at + rotation`, lies before now.
abbrev pub is_due : ℕ → Schedule → Bool
is_due now x = ltb (x.page.checked_at + x.row.rotation) now

-- `all_scheduled_pages().filter(watermark__lt=Now())`: one query, filtered and then ordered.
unfoldable pub due_pages : Site → Db → ℕ → List Schedule
due_pages s db now = order_by by_schedule (keep (is_due now) (schedules_of s db))

-- `random.random() <= 0.50`, for the 53 bits that the generator draws.
abbrev pub retry : ℕ → Bool
retry draw = leb draw (2 ^ 52)

after_schedule : Site → Db → ℕ → Option Schedule → Option Page
after_schedule s db draw (some x) = some x.page
after_schedule s db draw none =
    if some_row (pages_with_errors s db) && retry draw
    then last_row (pages_with_errors s db)
    else if some_row (all_queued_pages s db)
    then first_row (all_queued_pages s db)
    else first_row (order_by by_checked (pages_of s db))

unfoldable pub next_page_to_check : Site → Db → ℕ → ℕ → Option Page
unfolding after_schedule
next_page_to_check s db now draw =
    after_schedule s db draw (first (due_pages s db now) (λ _. true) none)

-- `self.pages.get(pk=pk)`, `none` where it does not exist.
unfoldable pub load_page : Site → ℕ → Db → Option Page
load_page s pk db = first_row (keep (has_id pk) (pages_of s db))

-- `filter(subpath = … AND params = …)`, in the order of the model.
abbrev pub found_at : Site → Text → Text → Db → Option Page
found_at s subpath params db =
    first (order_by by_created (keep (at_url s.id_site subpath params) db.pages)) (λ _. true) none

create_unless : Option Page → Site → Text → Text → ℕ → Action (Page × Bool)
create_unless (some found) s subpath params now = pure (found, false)
create_unless none s subpath params now = do
  page ← insert_page (new_page s.id_site subpath params now)
  pure (page, true)

unfoldable pub load_or_create : Site → Text → Text → ℕ → Action (Page × Bool)
unfolding create_unless
load_or_create s subpath params now db =
    create_unless (found_at s subpath params db) s subpath params now db

module _ (urls : UrlLib) where
  open urls use {urlparse, urlunparse}

  -- `url(path)`: `path or self.path`.
  unfoldable pub url : Site → Text → Text
  url s path = urlunparse (record {
    scheme = s.scheme;
    netloc = s.netloc;
    path = elim path [ [] ↦ s.path | c ∷ rest ↦ c ∷ rest ];
    params = [];
    query = [];
    fragment = [];
  })

  -- `x and x != y` for texts.
  abbrev pub differs : Text → Text → Bool
  differs [] own = false
  differs (c ∷ x) own = not (text_eq (c ∷ x) own)

  unfoldable pub local_parts : Site → SplitUrl → Bool
  local_parts s info = not (differs info.scheme s.scheme) && not (differs info.netloc s.netloc)

  unfoldable pub is_local : Site → Text → Outcome Bool
  unfolding local_parts
  is_local s address = elim (urlparse address) [
    | returned info ↦ returned (local_parts s info)
    | raised e ↦ raised e
  ]

  unfoldable pub add_page : Site → Text → ℕ → Action (Page × Bool)
  add_page s address now = do
    info ← lift (urlparse address)
    load_or_create s info.path info.query now

-- ===== src/Views.antt =====
-- The views of src/spidercheck/views.py: here those that change the database, and `get_page`; the
-- views that render are in Contexts. A request is its method and its parameters; where a view
-- redirects to is left out, and of the messages to the user only the numbers in them are kept. The
-- query `dbraw.load_paginas_huerfanas` is not in the repository: its rows are an argument.
pub mod Toggle
pub mod Expunge
pub mod Contexts
pub mod Counted
pub mod Deleting
use spidercheck.Prelude.{
  ℕ, ◌+◌, Bool, true, false, not, List, [], ◌∷◌, Option, none, some, Text, codes, keep, length, any,
  ◌==◌, ◌&&◌, if◌then◌else◌,
}
use spidercheck.Prelude.Int.{ℤ, pos, negsuc}
use spidercheck.Prelude.Numerals.{int_of}
use spidercheck.Results.{Outcome, returned, raised, value_error, assertion_error}
use spidercheck.Models.{Site, Page, Db}
use spidercheck.Action.{Action, pure, raise, lift, read, write, ◌>>=◌, ◌>>◌}
use spidercheck.Tables.{has_id, in_site, save_page, delete_pages, delete_links}
use spidercheck.Rows.{order_by}
use spidercheck.Sites.{by_created}
use spidercheck.Urls.{UrlLib}
use spidercheck.Pages.{can_be_deleted, full_url_of}

-- The page number once `p` was read: the parameter `page` goes before it.
page_or : Option ℤ → Option Text → ℤ
unfolding int_of
page_or none page = pos 1
page_or (some n) none = n
page_or (some n) (some text) = elim (int_of text) [ none ↦ pos 1 | some m ↦ m ]

int_or_one : Option Text → Option ℤ
unfolding int_of
int_or_one none = some (pos 1)
int_or_one (some text) = int_of text

-- `get_page`, for the parameters `p` and `page`.
unfoldable pub get_page : Option Text → Option Text → ℤ
unfolding page_or int_or_one
get_page p page = page_or (int_or_one p) page

-- `Link.objects.filter(to_page=page.pk)`, and how many rows its `delete` reports.
abbrev pub links_to : Page → Db → ℕ
links_to page db = length (keep (λ l. l.to_page == page.id_page) db.links)

-- The number of links that went, 0 where the view deletes none.
unfoldable pub toogle_is_linkable : ℕ → Page → Action ℕ
toogle_is_linkable now page =
    let toggled = record page { is_linkable = not page.is_linkable } in
    if toggled.is_linkable then (save_page now toggled >>= λ _. pure 0) else (do
      counter ← read (links_to page)
      write (delete_links (λ l. l.to_page == page.id_page))
      save_page now toggled
      pure counter)

-- `page.delete()`
abbrev pub delete_page : Page → Db → Db
delete_page page = delete_pages (has_id page.id_page)

abbrev pub assert_true : Bool → Action Unit
assert_true condition = if condition then pure tt else raise assertion_error

unfoldable pub page_delete : Bool → Page → Action Unit
unfolding can_be_deleted
page_delete is_post page = do
  assert_true is_post
  allowed ← read (can_be_deleted page)
  assert_true allowed
  write (delete_page page)

-- `counter += 1`
abbrev bumped : Outcome ℕ → Outcome ℕ
bumped (returned counter) = returned (counter + 1)
bumped (raised e) = raised e

abbrev pub one_more : Outcome ℕ × Db → Outcome ℕ × Db
one_more (counter, db) = (bumped counter, db)

-- The message names the page by its `str`, which may raise.
abbrev pub after_message : Outcome Text → Db → Outcome ℕ × Db → Outcome ℕ × Db
after_message (returned shown) db later = later
after_message (raised e) db later = (raised e, db)

-- The loop of the two views that expunge: how many went, and whether each page may go is asked again
-- before it goes.
unfoldable pub expunge_pages : UrlLib → List Page → Action ℕ
unfolding can_be_deleted full_url_of
expunge_pages urls [] db = (returned 0, db)
expunge_pages urls (page ∷ pages) db =
    let gone = expunge_pages urls pages (delete_page page db) in
    let kept = expunge_pages urls pages db in
    if can_be_deleted page db
    then one_more gone
    else after_message (full_url_of urls page db) db kept

-- `[int(_) for _ in …]`
ints_or : Option ℤ → Outcome (List ℤ) → Outcome (List ℤ)
ints_or none rest = raised value_error
ints_or (some n) (returned ns) = returned (n ∷ ns)
ints_or (some n) (raised e) = raised e

unfoldable pub ints_of : List Text → Outcome (List ℤ)
unfolding ints_or int_of
ints_of [] = returned []
ints_of (text ∷ texts) = ints_or (int_of text) (ints_of texts)

abbrev pub equals : ℕ → ℤ → Bool
equals n (pos k) = n == k
equals n (negsuc k) = false

-- `Page.objects.filter(id_page__in=id_pages, site=site)`, in the order of the model.
unfoldable pub pages_in : List ℤ → Site → Db → List Page
pages_in ids s db =
    order_by by_created (keep (λ p. in_site s.id_site p && any (equals p.id_page) ids) db.pages)

unfoldable pub site_expunge : UrlLib → Bool → List Text → Site → Action ℕ
unfolding ints_of pages_in expunge_pages
site_expunge urls is_post id_pages s = assert_true is_post >>= λ _.
    lift (ints_of id_pages) >>= λ ids. λ db. expunge_pages urls (pages_in ids s db) db

unfoldable pub site_expunge_all : UrlLib → Bool → List Page → Action ℕ
unfolding expunge_pages
site_expunge_all urls is_post orphans = assert_true is_post >>= λ _. expunge_pages urls orphans

-- ===== src/Pages.antt =====
-- The methods of `Page` in src/spidercheck/models.py, beside those over its values. The site that
-- `self.site` reads is an argument; what the server answers is one too.
pub mod Owners
pub mod ValidLinks
use spidercheck.Prelude.{
  ℕ, ◌==◌, Bool, true, false, not, ◌&&◌, List, [], ◌∷◌, Option, none, some, Text, codes, text_eq,
  any, keep, length, if◌then◌else◌,
}
use spidercheck.Prelude.Int.{ℤ, negsuc, between, sub_ℕ}
use spidercheck.Results.{
  does_not_exist, Exc, Outcome, returned, raised, assertion_error, chain, Result, success, failure,
}
use spidercheck.Rows.{first_row}
use spidercheck.Models.{Site, Page, Link, ScheduledPage, Db}
use spidercheck.Tables.{has_id, has_site_id}
use spidercheck.Urls.{SplitUrl, UrlLib}
use spidercheck.Sites.{is_local}

-- `Page.load_page(pk)`: `none` where it does not exist.
unfoldable pub load_page : ℕ → Db → Option Page
load_page pk db = first_row (keep (has_id pk) db.pages)

-- `page.site`
unfoldable pub site_of : Page → Db → Option Site
site_of page db = first_row (keep (has_site_id page.site) db.sites)

-- `200 <= self.status < 300`
unfoldable pub is_ok : Page → Bool
is_ok p = between 200 299 p.status

abbrev pub incoming_links : Page → Db → List Link
incoming_links p db = keep (λ l. l.to_page == p.id_page) db.links

abbrev pub outgoing_links : Page → Db → List Link
outgoing_links p db = keep (λ l. l.from_page == p.id_page) db.links

unfoldable pub can_be_deleted : Page → Db → Bool
can_be_deleted p db = length (incoming_links p db) == 0

-- An instance of `datetime` is always true, so the time of creation is never read.
unfoldable pub waiting_time : Page → ℕ → ℤ
waiting_time p now = sub_ℕ now p.checked_at

abbrev pub schedule_of : Page → Db → Option ScheduledPage
schedule_of p db = first_row (keep (λ s. s.page == p.id_page) db.scheduled)

unfoldable pub is_scheduled : Page → Db → Bool
is_scheduled p db = any (λ s. s.page == p.id_page) db.scheduled

rotation_or : Option ScheduledPage → Outcome ℕ
rotation_or none = raised assertion_error
rotation_or (some s) = returned s.rotation

-- The `assert` fails exactly where the `get` would find no row.
unfoldable pub get_scheduled_rotation : Page → Db → Outcome ℕ
unfolding rotation_or
get_scheduled_rotation p db = rotation_or (schedule_of p db)

-- What `urlopen` does with the HEAD request: a response with its status, or an exception with its
-- message.
pub data Head : Type 0 where
  responded : ℤ → Head
  failed : Text → Head

-- `Success()` holds the default, `True`. The message of the second case has no `f` in front.
unfoldable pub is_valid : Head → Result Bool ℤ
is_valid (responded status) =
    if between 200 299 status
    then success true
    else failure (codes "El servidor devuelve un código de error {req.status}") none
is_valid (failed message) = failure message (some (negsuc 0))

-- The links that the generator yields, and the exception that ends it, if one does.
abbrev pub Yields : Type 0
Yields = List Text × Option Exc

yield_next : Outcome (Option Text) → Yields → Yields
yield_next (returned none) later = later
yield_next (returned (some link)) later = (link ∷ later.0, later.1)
yield_next (raised e) later = ([], some e)

module _ (urls : UrlLib) where
  open urls use {urlunparse, urljoin}

  unfoldable pub get_relative_url : Site → Page → Outcome Text
  get_relative_url s p = chain (urljoin s.path p.subpath) λ path. returned (
      urlunparse (record {
        scheme = [];
        netloc = [];
        path = path;
        params = [];
        query = p.params;
        fragment = [];
      }))

  unfoldable pub get_full_url : Site → Page → Outcome Text
  get_full_url s p = chain (urljoin s.path p.subpath) λ path. returned (
      urlunparse (record {
        scheme = s.scheme;
        netloc = s.netloc;
        path = path;
        params = [];
        query = p.params;
        fragment = [];
      }))

  -- One round of the loop: the link to yield, or none where it is skipped.
  unfoldable pub valid_link : Site → Page → (Text → Outcome Bool) → Text → Outcome (Option Text)
  valid_link s p can_fetch link = chain (get_full_url s p) λ full. chain (urljoin full link) λ url.
      if text_eq url full
      then returned none
      else chain (is_local urls s url) λ local.
        chain (if local then can_fetch link else returned false) λ allowed.
          if allowed
          then (chain (get_relative_url s p)
              λ relative. chain (urljoin relative link) λ joined. returned (some joined))
          else returned none

  valid_links : Site → Page → (Text → Outcome Bool) → List Text → Yields
  valid_links s p can_fetch [] = ([], none)
  valid_links s p can_fetch (link ∷ links) =
      yield_next (valid_link s p can_fetch link) (valid_links s p can_fetch links)

  -- `robots` is what reading the site's robots.txt gives: its rules, or an exception; to ask
  -- the rules of a link may raise as well.
  unfoldable pub get_all_valid_links :
      Site → Page → Outcome (Text → Outcome Bool) → List Text → Yields
  unfolding valid_links yield_next
  get_all_valid_links s p (returned can_fetch) links = valid_links s p can_fetch links
  get_all_valid_links s p (raised e) links = ([], some e)

-- A foreign key that is read.
unfoldable pub row_or_raise : {A : Type 0} → Option A → Outcome A
row_or_raise none = raised does_not_exist
row_or_raise (some a) = returned a

-- `str(page)`, which is `page.get_full_url()`.
unfoldable pub full_url_of : UrlLib → Page → Db → Outcome Text
unfolding row_or_raise site_of
full_url_of urls page db = chain (row_or_raise (site_of page db)) λ s. get_full_url urls s page

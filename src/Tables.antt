-- ===== src/Tables.antt =====
-- What Django does with the tables for the statements of the program: INSERT and UPDATE behind
-- `save`, with the constraints that src/spidercheck/models.py declares, and DELETE with
-- `on_delete=CASCADE`.
pub mod Stored
pub mod Seeds
pub mod Consistent
pub mod Deletes
pub mod Inserts
pub mod Rewrites
pub mod Saves
pub mod Values
use spidercheck.Prelude.{
  ℕ, ◌+◌, Bool, not, ◌&&◌, ◌||◌, List, [], ◌∷◌, ◌++◌, Text, text_eq, any, keep, ◌==◌, if◌then◌else◌,
  map, some, none,
}
use spidercheck.Results.{returned, raised, integrity_error}
use spidercheck.Models.{Site, Page, Link, Value, ScheduledPage, Db}
use spidercheck.Action.{Action}
use spidercheck.Rows.{replace, first_row}

-- The conditions of the queries.
abbrev pub has_id : ℕ → Page → Bool
has_id i p = p.id_page == i

abbrev pub in_site : ℕ → Page → Bool
in_site s p = p.site == s

abbrev pub at_url : ℕ → Text → Text → Page → Bool
at_url s subpath params p = p.site == s && (text_eq p.subpath subpath && text_eq p.params params)

abbrev pub accepts_links : ℕ → Page → Bool
accepts_links i p = p.id_page == i && p.is_linkable

abbrev pub is_link : ℕ → ℕ → Link → Bool
is_link a b l = l.from_page == a && l.to_page == b

abbrev pub is_value : ℕ → Text → Value → Bool
is_value page name v = v.page == page && text_eq v.name name

abbrev pub has_value_id : ℕ → Value → Bool
has_value_id i v = v.id_value == i

abbrev pub has_site_id : ℕ → Site → Bool
has_site_id i s = s.id_site == i

abbrev pub is_named : Text → Site → Bool
is_named name s = text_eq s.name name

abbrev pub has_seed : Text → Text → Text → Site → Bool
has_seed scheme netloc path s =
    text_eq s.scheme scheme && (text_eq s.netloc netloc && text_eq s.path path)

-- `unique_full_path`: another row holds the page's site, subpath and params.
unfoldable pub page_taken : Page → List Page → Bool
page_taken p = any λ x. at_url p.site p.subpath p.params x && not (x.id_page == p.id_page)

-- `save()` of a new instance.
unfoldable pub insert_page : Page → Action Page
insert_page p db =
    let row = record p { id_page = db.next_page } in
    if page_taken row db.pages
    then (raised integrity_error, db)
    else (returned row, record db { pages = db.pages ++ row ∷ []; next_page = db.next_page + 1 })

-- `save()` of an instance that has its key: an UPDATE of every column, and an INSERT where no row
-- has the key any more, which sets `created_at` to the time `now`.
unfoldable pub save_page : ℕ → Page → Action Unit
save_page now p db = if page_taken p db.pages then (raised integrity_error, db) else (
  returned tt,
  record db {
    pages =
        if any (has_id p.id_page) db.pages
        then replace (λ x. x.id_page) p db.pages
        else db.pages ++ record p { created_at = now } ∷ [];
  },
)

-- `delete()` of the pages that a condition selects, with the rows that refer to them.
unfoldable pub delete_pages : (Page → Bool) → Db → Db
delete_pages doomed db =
    let gone : ℕ → Bool = λ i. any (λ p. p.id_page == i && doomed p) db.pages in
    record db {
      pages = keep (λ p. not (gone p.id_page)) db.pages;
      links = keep (λ l. not (gone l.from_page || gone l.to_page)) db.links;
      values = keep (λ v. not (gone v.page)) db.values;
      scheduled = keep (λ s. not (gone s.page)) db.scheduled;
    }

-- `Site.save()` of a new instance: the name and the seed are unique.
unfoldable pub insert_site : Site → Action Site
insert_site s db =
    let row = record s { id_site = db.next_site } in
    if any (is_named s.name) db.sites || any (has_seed s.scheme s.netloc s.path) db.sites
    then (raised integrity_error, db)
    else (returned row, record db { sites = db.sites ++ row ∷ []; next_site = db.next_site + 1 })

-- `Link.objects.get_or_create(from_page=a, to_page=b)`: whether it was created.
unfoldable pub get_or_create_link : ℕ → ℕ → Action Bool
get_or_create_link a b db =
    let row : Link = record { id_link = db.next_link; from_page = a; to_page = b } in
    if any (is_link a b) db.links then (returned Bool.false, db) else (
      returned Bool.true,
      record db { links = db.links ++ row ∷ []; next_link = db.next_link + 1 },
    )

-- `delete()` of the links that a condition selects.
unfoldable pub delete_links : (Link → Bool) → Db → Db
delete_links doomed db = record db { links = keep (λ l. not (doomed l)) db.links }

-- `Value.objects.get_or_create(page=page, name=name)`
unfoldable pub get_or_create_value : ℕ → Text → Action Value
get_or_create_value page name db =
    let row : Value = record { id_value = db.next_value; page = page; name = name; value = [] } in
    elim (first_row (keep (is_value page name) db.values)) [
      | some old ↦ (returned old, db)
      | none ↦ (
        returned row,
        record db { values = db.values ++ row ∷ []; next_value = db.next_value + 1 },
      )
    ]

-- `save()` of a value that was read and had its text changed: the other columns are written back
-- as they were read.
set_text : ℕ → Text → Value → Value
set_text i text v = if v.id_value == i then record v { value = text } else v

unfoldable pub save_value_text : ℕ → Text → Action Unit
unfolding set_text
save_value_text i text db = (returned tt, record db { values = map (set_text i text) db.values })

unfoldable pub delete_values : (Value → Bool) → Db → Db
delete_values doomed db = record db { values = keep (λ v. not (doomed v)) db.values }

-- ===== src/Views/Contexts.antt =====
-- The views of src/spidercheck/views.py that render a template: a view is the context that it gives to its
-- template. Links, charts and the progress of the last hours, which `dbraw` reads, are left out.
-- Django's Paginator is an argument, as are the rows that `dbraw.load_paginas_huerfanas` gives.
use spidercheck.Prelude.{
  ℕ, Bool, false, not, List, [], ◌∷◌, ◌++◌, Option, none, some, Text, codes, keep, length,
}
use spidercheck.Prelude.Int.{ℤ}
use spidercheck.Prelude.Numerals.{str_ℕ}
use spidercheck.Results.{Outcome, returned, raised, chain, truth}
use spidercheck.Models.{Site, Page, Db}
use spidercheck.Action.{Action, pure, ◌>>=◌}
use spidercheck.Urls.{UrlLib}
use spidercheck.Sites.{
  pages_of, checked, Schedule, all_queued_pages, all_checked_pages, all_scheduled_pages,
  pages_with_errors,
}
use spidercheck.Sites.Counts.{Counted, get_all_sites, count_values}
use spidercheck.Sites.Search.{Found, search}
use spidercheck.Parser.{Tag}
use spidercheck.Plugins.{Loaded}
use spidercheck.Crawl.{Checked, Visit, check_page}
use spidercheck.Views.{get_page}

abbrev pub page_size : ℕ
page_size = 25

-- `Paginator(rows, size).page(number)`
abbrev pub Paginate : Type 0
Paginate = List Page → ℕ → ℤ → Outcome (List Page)

-- The parameters `p` and `page` of a request.
pub record Query : Type 0 where
  pub p : Option Text
  pub page : Option Text

unfoldable pub homepage : Db → List Site
homepage db = get_all_sites db

pub record SiteDetail : Type 0 where
  pub titulo : Text
  pub num_pages : ℕ
  pub num_errores : ℕ
  pub num_queued : ℕ
  pub num_no_links : ℕ
  pub num_processed : ℕ
  pub scheduled : List Schedule
  pub num_scheduled : ℕ
  pub versiones : Counted

abbrev pub not_linkable : Page → Bool
not_linkable p = not p.is_linkable

unfoldable pub site_detail : Site → Db → SiteDetail
site_detail s db = record {
  titulo = codes "Site " ++ s.name;
  num_pages = length (pages_of s db);
  num_errores = length (pages_with_errors s db);
  num_queued = length (all_queued_pages s db);
  num_no_links = length (keep not_linkable (pages_of s db));
  num_processed = length (keep checked (pages_of s db));
  scheduled = all_scheduled_pages s db;
  num_scheduled = length (all_scheduled_pages s db);
  versiones = count_values s (codes "version") db;
}

-- A list of pages, in parts.
pub record Listing : Type 0 where
  pub titulo : Text
  pub num_page : ℤ
  pub num_pages : ℕ
  pub page : List Page

pub record Errors : Type 0 where
  pub listing : Listing
  pub num_errors : ℕ

module _ (paginate : Paginate) where
  listing : Text → ℤ → ℕ → List Page → Outcome Listing
  listing titulo num_page num_pages rows = chain (paginate rows page_size num_page) λ page.
      returned (record { titulo = titulo; num_page = num_page; num_pages = num_pages; page = page })

  -- Here `num_pages` counts all pages of the site.
  unfoldable pub site_errors : Query → Site → Db → Outcome Errors
  unfolding listing
  site_errors query s db =
      chain
        (listing (codes "Site " ++ (s.name ++ codes " - Errores")) (get_page query.p query.page)
          (length (pages_of s db)) (pages_with_errors s db))
        λ l. returned (record { listing = l; num_errors = length (pages_with_errors s db) })

  unfoldable pub site_queue : Query → Site → Db → Outcome Listing
  unfolding listing
  site_queue query s db =
      listing (codes "Site " ++ (s.name ++ codes " - Cola")) (get_page query.p query.page)
        (length (all_queued_pages s db)) (all_queued_pages s db)

  unfoldable pub site_last : Query → Site → Db → Outcome Listing
  unfolding listing
  site_last query s db =
      listing (codes "Site " ++ (s.name ++ codes " - Cola")) (get_page query.p query.page)
        (length (all_checked_pages s db)) (all_checked_pages s db)

  unfoldable pub site_orphans : Query → Site → List Page → Outcome Listing
  unfolding listing str_ℕ
  site_orphans query s orphans =
      listing
        (codes "Páginas huérfanas en "
          ++ (s.name ++ (codes " (" ++ (str_ℕ (length orphans) ++ codes ")"))))
        (get_page query.p query.page) (length orphans) orphans

pub record NoLinks : Type 0 where
  pub titulo : Text
  pub num_pages : ℕ
  pub pages : List Page

unfoldable pub site_no_links : Site → Db → NoLinks
unfolding str_ℕ
site_no_links s db =
    let rows = keep not_linkable (pages_of s db) in
    record {
      titulo =
          codes "Páginas no enlazables "
          ++ (s.name ++ (codes " (" ++ (str_ℕ (length rows) ++ codes ")")));
      num_pages = length rows;
      pages = rows;
    }

pub record Scheduled : Type 0 where
  pub titulo : Text
  pub scheduled : List Schedule
  pub num_pages : ℕ

unfoldable pub site_scheduled : Site → Db → Scheduled
site_scheduled s db = record {
  titulo = codes "Site " ++ (s.name ++ codes " - Páginas priorizadas");
  scheduled = all_scheduled_pages s db;
  num_pages = length (all_scheduled_pages s db);
}

-- `list(site.search(query)) if query else []`
searched : UrlLib → (Text → Outcome (Text → Bool)) → Site → Text → Db → Found
searched urls compile s [] db = ([], none)
searched urls compile s (c ∷ query) db = search urls compile s (c ∷ query) false db

pub record Search : Type 0 where
  pub query : Text
  pub pages : List Page

list_of : Found → Outcome (List Page)
list_of (pages, none) = returned pages
list_of (pages, some e) = raised e

or_blank : Option Text → Text
or_blank none = []
or_blank (some q) = q

unfoldable pub site_search :
    UrlLib → (Text → Outcome (Text → Bool)) → Option Text → Site → Db → Outcome Search
unfolding searched list_of or_blank
site_search urls compile q s db =
    chain (list_of (searched urls compile s (or_blank q) db))
      λ pages. returned (record { query = or_blank q; pages = pages })

pub record PageDetail : Type 0 where
  pub titulo : Text
  pub page : Page

-- `s` is `page.site`.
unfoldable pub detail_page : Site → Page → PageDetail
unfolding str_ℕ
detail_page s page = record {
  titulo = codes "Página " ++ (str_ℕ page.id_page ++ (codes " de " ++ s.name));
  page = page;
}

-- `page_check`: which of the two messages is added, with the result that it shows.
unfoldable pub page_check :
    UrlLib → (Text → List Tag) → Loaded → Site → Page → Visit → Action (Bool × Checked)
page_check urls tags_of plugins s page v =
    check_page urls tags_of plugins s page v >>= λ result. pure (truth result, result)

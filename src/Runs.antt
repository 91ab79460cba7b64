-- ===== src/Runs.antt =====
-- Runs of the whole program: the orders of the management command and the views of
-- src/spidercheck/views.py that write, one after the other, from any database. A request that
-- names a page reads it first, as the converter of src/spidercheck/converters.py does. A step ends
-- where its order or its view returns or raises.
pub mod Consistent
use spidercheck.Prelude.{ℕ, ◌≡◌, Bool, List, Option, some, Text, keep}
use spidercheck.Prelude.Int.{ℤ}
use spidercheck.Models.{Site, Page, Db}
use spidercheck.Rows.{first_row}
use spidercheck.Tables.{has_site_id}
use spidercheck.Urls.{UrlLib}
use spidercheck.Sites.{load_site_by_name}
use spidercheck.Pages.{load_page, site_of}
use spidercheck.Command.Main.{Outside}
use spidercheck.Command.Arguments.{Given, run_from_argv}
use spidercheck.Parser.{Tag}
use spidercheck.Plugins.{Plugin}
use spidercheck.Crawl.{Turn, Visit, check_page, check_site, init_site, reset_site}
use spidercheck.Views.{toogle_is_linkable, page_delete, site_expunge, site_expunge_all}

module _ (o : Outside) (help : Text) where
  pub data Step (db : Db) : Db → Type 0 where
    order_step :
        (verbose : Bool) (now : ℕ) (turns : ℕ → Turn) (order : Option Text) (given : Given)
        → Step db (run_from_argv o help verbose now turns order given db).1.1
    page_check_step :
        (id_page : ℕ) (page : Page) (s : Site) (v : Visit)
        → load_page id_page db ≡ some page
        → site_of page db ≡ some s
        → Step db (check_page o.urls o.tags_of o.plugins s page v db).1
    toogle_is_linkable_step :
        (now id_page : ℕ) (page : Page)
        → load_page id_page db ≡ some page
        → Step db (toogle_is_linkable now page db).1
    page_delete_step :
        (is_post : Bool) (id_page : ℕ) (page : Page)
        → load_page id_page db ≡ some page
        → Step db (page_delete is_post page db).1
    site_expunge_step :
        (is_post : Bool) (id_pages : List Text) (s : Site)
        → Step db (site_expunge o.urls is_post id_pages s db).1
    site_expunge_all_step :
        (is_post : Bool) (orphans : List Page)
        → Step db (site_expunge_all o.urls is_post orphans db).1

  -- The databases that the program can come to from one.
  pub data Reachable (origin : Db) : Db → Type 0 where
    start : Reachable origin origin
    next : {db after : Db} → Reachable origin db → Step db after → Reachable origin after

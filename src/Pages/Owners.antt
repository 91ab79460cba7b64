-- ===== src/Pages/Owners.antt =====
-- The page that a request names, and `page.site`, in src/spidercheck/models.py.
use spidercheck.Prelude.{ℕ, ◌≡◌, ◌∙◌, ◌&&◌, some, arith}
use spidercheck.Rows.Among.{Among, keep-Among, first_row-Among}
use spidercheck.Rows.Laws.{any-keep-and}
use spidercheck.Models.{Site, Page, Db}
use spidercheck.Tables.{in_site, has_id, has_site_id}
use spidercheck.Sites.{pages_of}
use spidercheck.Pages.{load_page, site_of}

pub page_row :
    (id_page : ℕ) (page : Page) (db : Db) → load_page id_page db ≡ some page → Among db.pages page
unfolding load_page
page_row id_page page db h =
    (keep-Among (has_id id_page) db.pages page (first_row-Among _ page h)).0

-- The page of a request is a page of its site.
pub own_row :
    (page : Page) (s : Site) (db : Db)
    → Among db.pages page
    → site_of page db ≡ some s
    → Among (pages_of s db) page
unfolding site_of
own_row page s db row h =
    let own = (keep-Among (has_site_id page.site) db.sites s (first_row-Among _ s h)).1 in
    λ t h.
      any-keep-and t (in_site s.id_site) db.pages
      ∙ row (λ x. t x && in_site s.id_site x) (ground arith)

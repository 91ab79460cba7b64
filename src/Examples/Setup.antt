-- ===== src/Examples/Setup.antt =====
-- `init_site` and `reset_site`, on the example site.
use spidercheck.Prelude.{◌≡◌, refl, Bool, true, not, ◌&&◌, [], ◌∷◌, codes, keep, any, text_eq}
use spidercheck.Prelude.Int.{negsuc}
use spidercheck.Results.{returned, raised, value_error}
use spidercheck.Rows.Among.{Among}
use spidercheck.Models.{Site, Page, Db, new_page}
use spidercheck.Tables.{in_site}
use spidercheck.Tables.Consistent.{IsConsistent}
use spidercheck.Urls.{SplitUrl}
use spidercheck.Urls.Plain.{plain, split_url}
use spidercheck.Sites.{pages_of, load_site_by_name}
use spidercheck.Crawl.{init_site, new_site, reset_site}
use spidercheck.Crawl.Reset.{reset_site_lem}
use spidercheck.Crawl.Setup.{init_site_lem, init_site-refused}
use spidercheck.Examples.{site, db, db-IsConsistent}

abbrev seed : SplitUrl
seed = record {
  scheme = codes "http";
  netloc = codes "n";
  path = codes "/";
  params = [];
  query = [];
  fragment = [];
}

init_site_lem_example :
    (s : Site) × (after : Db) × (init_site plain (codes "http://n/") (codes "new") 8 db
      ≡ (returned s, after))
    × (s ≡ record (new_site plain (codes "new") seed 8) { id_site = 2 })
    × Among after.sites s
    × (pages_of s after
        ≡ record (new_page s.id_site (codes "/") [] 8) { id_page = 3; status = negsuc 0 } ∷ [])
    × ((t : Page → Bool) → any t db.pages ≡ true → any t after.pages ≡ true)
    × IsConsistent after
unfolding split_url any text_eq
init_site_lem_example =
    init_site_lem plain (codes "new") 8 db (codes "http://n/") seed db-IsConsistent refl refl refl

init_site-refused_example :
    init_site plain (codes "http://n/") (codes "s") 8 db ≡ (raised value_error, db)
unfolding split_url any text_eq
init_site-refused_example =
    init_site-refused plain (codes "s") 8 db (codes "http://n/") seed refl refl

reset_site_lem_example :
    (after : Db) × (reset_site plain (codes "s") 8 db ≡ (returned site, after))
    × (pages_of site after ≡ record (new_page 1 (codes "/") [] 8) { id_page = 3 } ∷ [])
    × ((t : Page → Bool)
        → any (λ p. not (in_site 1 p) && t p) after.pages
          ≡ any (λ p. not (in_site 1 p) && t p) db.pages)
    × IsConsistent after
unfolding split_url load_site_by_name keep spidercheck.Rows.first_row text_eq
reset_site_lem_example =
    reset_site_lem plain (codes "s") 8 db site
      (record {
        scheme = [];
        netloc = [];
        path = codes "/";
        params = [];
        query = [];
        fragment = [];
      })
      db-IsConsistent refl refl

-- ===== src/Examples/Changes.antt =====
-- The views that change the database, the converters and the registry, run on the example site.
use spidercheck.Prelude.{
  ℕ, ◌≡◌, true, false, not, ◌&&◌, ◌⊎◌, [], ◌∷◌, none, Text, codes, any, ◌==◌, arith,
}
use spidercheck.Prelude.Numerals.{str_ℤ}
use spidercheck.Urls.Plain.{plain}
use spidercheck.Results.{returned, raised, assertion_error, chain}
use spidercheck.Rows.Among.{Among, Among-here}
use spidercheck.Models.{Site, Page, Db}
use spidercheck.Tables.{has_id, in_site, is_link}
use spidercheck.Tables.Consistent.{IsConsistent}
use spidercheck.Plugins.{Plugin, gave, Registry, get_version_process}
use spidercheck.Converters.{
  site_name, site_instance, site_to_python, site_to_url, page_text, page_instance, page_to_python,
  page_to_url,
}
use spidercheck.Converters.Trips.{converters-roundtrip}
use spidercheck.Views.{toogle_is_linkable, links_to, site_expunge, page_delete}
use spidercheck.Views.Toggle.{toggled, toogle_is_linkable_lem}
use spidercheck.Views.Deleting.{site_expunge_lem, page_delete_lem}
use spidercheck.Examples.{site, root, second, db, db-IsConsistent}

second-Among : Among db.pages second
unfolding any
second-Among t h = ground arith

toogle_is_linkable_lem_example :
    (counter : ℕ) × (after : Db) × (toogle_is_linkable 20 second db ≡ (returned counter, after))
    × (counter ≡ links_to second db)
    × IsConsistent after
    × Among after.pages (toggled second)
    × ((a b : ℕ)
        → any (is_link a b) after.links ≡ not (true && b == 2) && any (is_link a b) db.links)
    × (after.values ≡ db.values)
toogle_is_linkable_lem_example = toogle_is_linkable_lem 20 second db db-IsConsistent second-Among

site_expunge_lem_example :
    IsConsistent (site_expunge plain true (codes "1" ∷ codes "2" ∷ []) site db).1
    × ((i : ℕ)
        → any (λ p. has_id i p && in_site 1 p) db.pages ≡ false
        → any (has_id i) (site_expunge plain true (codes "1" ∷ codes "2" ∷ []) site db).1.pages
          ≡ any (has_id i) db.pages)
    × ((a b : ℕ)
        → any (λ p. has_id a p && in_site 1 p) db.pages ≡ false
        → any (is_link a b) (site_expunge plain true (codes "1" ∷ codes "2" ∷ []) site db).1.links
          ≡ any (is_link a b) db.links)
site_expunge_lem_example =
    site_expunge_lem plain true (codes "1" ∷ codes "2" ∷ []) site db db-IsConsistent

page_delete_lem_example :
    ((any (λ l. l.to_page == 1) db.links ≡ true)
      × (page_delete true root db ≡ (raised assertion_error, db)))
    ⊎ ((any (λ l. l.to_page == 1) db.links ≡ false)
        × ((after : Db) × (page_delete true root db ≡ (returned tt, after))
            × IsConsistent after
            × (any (has_id 1) after.pages ≡ false)
            × ((i : ℕ) → (1 == i) ≡ false → any (has_id i) after.pages ≡ any (has_id i) db.pages)
            × ((a b : ℕ)
                → (1 == a) ≡ false
                → any (is_link a b) after.links ≡ any (is_link a b) db.links)))
page_delete_lem_example = page_delete_lem root db db-IsConsistent

site-Among : Among db.sites site
site-Among = Among-here site []

converters-roundtrip_example :
    ((t : Site) × (chain
          (site_to_url (site_instance site))
          (λ value. site_to_python (site_name value) db)
        ≡ returned t)
      × (t.id_site ≡ site.id_site))
    × ((q : Page) × (chain
            (page_to_url (page_instance second))
            (λ n. page_to_python (page_text (str_ℤ n)) db)
          ≡ returned q)
        × (q.id_page ≡ second.id_page))
converters-roundtrip_example =
    converters-roundtrip site second db db-IsConsistent site-Among second-Among

abbrev registry : Registry
registry = record { modules = (codes "get_version", none) ∷ []; initialized = false }

abbrev silent : Text → Plugin
silent name page headers body = gave []

abbrev version_only : Text → Plugin
version_only name = get_version_process

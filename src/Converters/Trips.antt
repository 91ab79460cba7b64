-- ===== src/Converters/Trips.antt =====
-- What `to_url` of src/spidercheck/converters.py writes into a URL, `to_python` reads back.
use spidercheck.Prelude.{◌≡◌, refl, ==_self, arith, text_eq_self}
use spidercheck.Results.{returned, chain}
use spidercheck.Rows.Kept.{some-first_row}
use spidercheck.Rows.Among.{Among, Among-unique, first_row-Among, keep-Among}
use spidercheck.Models.{Site, Page, Db}
use spidercheck.Tables.{has_id, has_site_id, is_named}
use spidercheck.Tables.Consistent.{IsConsistent}
use spidercheck.Sites.{load_site_by_name}
use spidercheck.Pages.{load_page}
use spidercheck.Prelude.Numerals.{str_ℤ}
use spidercheck.Converters.Digits.{int_of-str_ℕ}
use spidercheck.Converters.{
  site_name, site_instance, site_to_python, site_to_url, page_text, page_instance, page_to_python,
  page_to_url,
}

-- In a consistent database, the text that the router makes of what `to_url` gives for a site and for
-- a page leads `to_python` to a row with the key of that site and of that page.
pub converters-roundtrip :
    (s : Site) (p : Page) (db : Db)
    → IsConsistent db
    → Among db.sites s
    → Among db.pages p
    → ((t : Site) × (chain
            (site_to_url (site_instance s))
            (λ value. site_to_python (site_name value) db)
          ≡ returned t)
        × (t.id_site ≡ s.id_site))
      × ((q : Page) × (chain
              (page_to_url (page_instance p))
              (λ n. page_to_python (page_text (str_ℤ n)) db)
            ≡ returned q)
          × (q.id_page ≡ p.id_page))
unfolding site_to_url site_to_python page_to_url page_to_python load_site_by_name load_page str_ℤ
converters-roundtrip s p db c site page =
    let (t, found) =
      some-first_row (is_named s.name) db.sites (site (is_named s.name) (text_eq_self s.name)) in
    let (row, named) = keep-Among (is_named s.name) db.sites t (first_row-Among _ t found) in
    let same =
      Among-unique (is_named s.name) db.sites s t (c.sites.names s.name) site row
        (text_eq_self s.name) named (has_site_id s.id_site) (==_self s.id_site) in
    let (q, here) =
      some-first_row (has_id p.id_page) db.pages (page (has_id p.id_page) (==_self p.id_page)) in
    let (among, own) = keep-Among (has_id p.id_page) db.pages q (first_row-Among _ q here) in
    ((t, rw found refl, ground arith), (q, rw (int_of-str_ℕ p.id_page, here) refl, ground arith))

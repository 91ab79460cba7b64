-- ===== src/Crawl/Setup.antt =====
-- `init_site` of src/spidercheck/core.py: a site starts with one page, unchecked.
use spidercheck.Prelude.{
  ℕ, ◌+◌, ◌≡◌, refl, Bool, true, false, not, ◌&&◌, ◌||◌, List, [], ◌∷◌, ◌++◌, none, some, arith,
  Text, any, any-snoc, ◌==◌, ==_self, if◌then◌else◌, inl, inr, Bool-cases,
}
use spidercheck.Prelude.Int.{negsuc}
use spidercheck.Results.{returned, raised, value_error, integrity_error}
use spidercheck.Rows.{first_row}
use spidercheck.Rows.Kept.{keep-never, keep-snoc, some-first_row}
use spidercheck.Rows.Among.{Among}
use spidercheck.Models.{Site, Page, Db, new_page}
use spidercheck.Tables.{
  in_site, at_url, has_site_id, is_named, has_seed, page_taken, insert_page, insert_site,
}
use spidercheck.Tables.Consistent.{IsConsistent}
use spidercheck.Tables.Inserts.{insert_page-IsConsistent}
use spidercheck.Tables.Seeds.{insert_site-IsConsistent}
use spidercheck.Urls.{SplitUrl, UrlLib}
use spidercheck.Sites.{load_site_by_name, pages_of}
use spidercheck.Crawl.{make_site, init_site, seed_page, new_site}

-- No page is at a place of a site that has none.
at_url-never :
    (s : ℕ) (subpath params : Text) (q : Page → Bool) (pages : List Page)
    → any (in_site s) pages ≡ false
    → any (λ p. at_url s subpath params p && q p) pages ≡ false
unfolding any
at_url-never s subpath params q [] h = refl
at_url-never s subpath params q (p ∷ pages) h =
    ground (arith, at_url-never s subpath params q pages)

-- The first page of a site goes in, and is its only one.
pub insert_first :
    (s : Site) (p : Page) (db : Db)
    → p.site ≡ s.id_site
    → any (in_site s.id_site) db.pages ≡ false
    → (after : Db) × (insert_page p db ≡ (returned (record p { id_page = db.next_page }), after))
      × (pages_of s after ≡ record p { id_page = db.next_page } ∷ [])
      × (after.pages ≡ db.pages ++ record p { id_page = db.next_page } ∷ [])
      × (after.sites ≡ db.sites)
unfolding insert_page page_taken
insert_first s p db own bare =
    let row = record p { id_page = db.next_page } in
    (
      record db { pages = db.pages ++ row ∷ []; next_page = db.next_page + 1 },
      rw (
          at_url-never p.site p.subpath p.params (λ x. not (x.id_page == db.next_page)) db.pages
            (rw own bare)),
      rw (keep-snoc, keep-never (in_site s.id_site) db.pages bare, own, ==_self s.id_site),
      refl,
      refl,
    )

load-unnamed :
    (name : Text) (db : Db)
    → any (is_named name) db.sites ≡ false
    → load_site_by_name name db ≡ none
unfolding load_site_by_name first_row
load-unnamed name db h = rw (keep-never (is_named name) db.sites h) refl

load-named :
    (name : Text) (db : Db)
    → any (is_named name) db.sites ≡ true
    → (s : Site) × (load_site_by_name name db ≡ some s)
unfolding load_site_by_name
load-named name db h = some-first_row (is_named name) db.sites h

-- No page is of the site that comes next.
bare_next : (db : Db) → IsConsistent db → any (in_site db.next_site) db.pages ≡ false
bare_next db c = elim (Bool-cases (any (in_site db.next_site) db.pages)) [
  | inr bare ↦ bare
  | inl some_page ↦
      absurd (omega (arith, c.sites.fresh db.next_site (c.pages.owners db.next_site some_page)))
]

module _ (urls : UrlLib) (name : Text) (now : ℕ) (db : Db) where
  -- If there is no site of the name, the URL can be parsed and no site has its seed, `init_site` on
  -- a consistent database returns a site with the name and the parts of the URL. Afterwards the
  -- site is a row, and its pages are one page: the path of the URL without parameters, unchecked,
  -- with the status -1. The pages that were there stay, and the database is consistent.
  pub init_site_lem :
      (url : Text) (info : SplitUrl)
      → IsConsistent db
      → any (is_named name) db.sites ≡ false
      → urls.urlparse url ≡ returned info
      → any (has_seed info.scheme info.netloc info.path) db.sites ≡ false
      → (s : Site) × (after : Db) × (init_site urls url name now db ≡ (returned s, after))
        × (s ≡ record (new_site urls name info now) { id_site = db.next_site })
        × Among after.sites s
        × (pages_of s after
            ≡ record (new_page s.id_site info.path [] now) {
              id_page = db.next_page;
              status = negsuc 0;
            }
              ∷ [])
        × ((t : Page → Bool) → any t db.pages ≡ true → any t after.pages ≡ true)
        × IsConsistent after
  unfolding init_site make_site seed_page
  init_site_lem url info c unnamed parsed seed =
      let s : Site = record (new_site urls name info now) { id_site = db.next_site } in
      let p = seed_page urls s info now in
      let mid : Db = record db { sites = db.sites ++ s ∷ []; next_site = db.next_site + 1 } in
      let made : insert_site (new_site urls name info now) db ≡ (returned s, mid) =
        unfold insert_site in rw (unnamed, seed) in
      let kept : IsConsistent mid =
        rw made at (insert_site-IsConsistent (new_site urls name info now) db c) in
      let (after, put, pages, all, sites) = insert_first s p mid refl (bare_next db c) in
      let own : any (has_site_id s.id_site) mid.sites ≡ true =
        ground (arith, any-snoc (has_site_id s.id_site) db.sites s, ==_self s.id_site) in
      (
        s,
        after,
        rw (load-unnamed name db unnamed, parsed, made, put),
        refl,
        (λ t h. rw sites (ground (arith, any-snoc t db.sites s))),
        pages,
        (λ t h. rw all (ground (arith, any-snoc t db.pages (record p { id_page = db.next_page })))),
        rw put at (insert_page-IsConsistent p mid kept own),
      )

  -- If the URL can be parsed, and the name is taken or a site has the seed of the URL, `init_site`
  -- raises, `ValueError` where the name is taken and the error of the constraint where it is not,
  -- and leaves the database as it was.
  pub init_site-refused :
      (url : Text) (info : SplitUrl)
      → urls.urlparse url ≡ returned info
      → any (is_named name) db.sites || any (has_seed info.scheme info.netloc info.path) db.sites
        ≡ true
      → init_site urls url name now db
        ≡ (raised (if any (is_named name) db.sites then value_error else integrity_error), db)
  unfolding init_site make_site
  init_site-refused url info parsed taken = elim (Bool-cases (any (is_named name) db.sites)) [
    | inl named ↦ let (s, found) = load-named name db named in rw (found, named) refl
    | inr unnamed ↦
        let seed : any (has_seed info.scheme info.netloc info.path) db.sites ≡ true =
          ground arith in
        let refused : insert_site (new_site urls name info now) db ≡ (raised integrity_error, db) =
          unfold insert_site in rw (unnamed, seed) in
        rw (load-unnamed name db unnamed, parsed, refused, unnamed) refl
  ]

-- ===== src/Sites/Pages.antt =====
-- `Site.load_or_create` and `Site.add_page` of src/spidercheck/models.py never make the same page
-- twice.
use spidercheck.Prelude.{
  ℕ, ◌+◌, ◌≡◌, refl, sym, ◌∙◌, none, some, Bool, true, false, not, [], ◌∷◌, ◌++◌, arith, Text,
  text_eq_self, any, any-snoc, keep, inl, inr, Bool-cases, Option-cases, ==_self,
}
use spidercheck.Results.{returned}
use spidercheck.Seq.{count_if}
use spidercheck.Rows.{order_by}
use spidercheck.Rows.Among.{
  Among, Among-unique, first_row-Among, order_by-Among, keep-Among, first_row-some,
  first-eq-first_row, length-order_by, length-keep-zero,
}
use spidercheck.Rows.Laws.{any_mono, any-of-count_if}
use spidercheck.Models.{Site, Page, Db, new_page}
use spidercheck.Tables.{has_id, at_url, has_site_id, page_taken, insert_page}
use spidercheck.Tables.Consistent.{IsConsistent}
use spidercheck.Tables.Inserts.{insert_page-IsConsistent}
use spidercheck.Sites.{by_created, found_at, load_or_create}

-- What a call that returned `(page, created)` and left `after` has done.
pub record Loads (s : Site) (subpath params : Text) (before : Db) (page : Page) (created : Bool)
    (after : Db) : Type 0 where
  -- The page has the path and parameters, and is a row of its site.
  pub place : at_url s.id_site subpath params page ≡ true
  pub row : Among after.pages page
  -- It was made exactly if there was none.
  pub news : created ≡ not (any (at_url s.id_site subpath params) before.pages)
  -- What was there stays, and nothing else comes.
  pub stays : (t : Page → Bool) → any t before.pages ≡ true → any t after.pages ≡ true
  pub others : (t : Page → Bool) → t page ≡ false → any t after.pages ≡ any t before.pages
  pub same_sites : after.sites ≡ before.sites
  pub same_links : after.links ≡ before.links
  pub same_values : after.values ≡ before.values
  pub consistent : IsConsistent after

module _ (s : Site) (subpath params : Text) (db : Db) where
  found_at-none :
      found_at s subpath params db ≡ none → any (at_url s.id_site subpath params) db.pages ≡ false
  found_at-none h = elim (Bool-cases (any (at_url s.id_site subpath params) db.pages)) [
    | inl here ↦
        let rows = keep (at_url s.id_site subpath params) db.pages in
        let (p, e) = first_row-some (order_by by_created rows) (
          ground (
            arith,
            length-order_by by_created rows,
            length-keep-zero (at_url s.id_site subpath params) db.pages,
          )) in
        absurd (cc (first-eq-first_row (order_by by_created rows)))
    | inr absent ↦ absent
  ]

  pub found_at-some :
      (p : Page)
      → found_at s subpath params db ≡ some p
      → Among db.pages p × (at_url s.id_site subpath params p ≡ true)
  found_at-some p h =
      keep-Among (at_url s.id_site subpath params) db.pages p
        (order_by-Among by_created _ p (first_row-Among _ p (sym (first-eq-first_row _) ∙ h)))

  place_free :
      (row : Page)
      → row.site ≡ s.id_site
      → row.subpath ≡ subpath
      → row.params ≡ params
      → any (at_url s.id_site subpath params) db.pages ≡ false
      → page_taken row db.pages ≡ false
  unfolding page_taken
  place_free row es eb ep h = elim (Bool-cases (page_taken row db.pages)) [
    | inl taken ↦
        let here =
          any_mono _ (at_url s.id_site subpath params) db.pages (λ x k. ground arith) taken in
        absurd (ground arith)
    | inr free ↦ free
  ]

  -- The page is found or made, and the call never raises.
  pub load_or_create-Loads :
      (now : ℕ)
      → IsConsistent db
      → any (has_site_id s.id_site) db.sites ≡ true
      → (page : Page) × (created : Bool) × (after : Db) × (load_or_create s subpath params now db
          ≡ (returned (page, created), after))
        × Loads s subpath params db page created after
  unfolding load_or_create
  load_or_create-Loads now c owner = elim (Option-cases (found_at s subpath params db)) [
    | inr (p, e) ↦
        let (row, place) = found_at-some p e in
        (
          p,
          false,
          db,
          rw e,
          record {
            place = place;
            row = row;
            news = ground (arith, row (at_url s.id_site subpath params) place);
            stays = λ t h. h;
            others = λ t h. refl;
            same_sites = refl;
            same_links = refl;
            same_values = refl;
            consistent = c;
          },
        )
    | inl e ↦
        let absent = found_at-none e in
        let row : Page = record (new_page s.id_site subpath params now) {
          id_page = db.next_page;
        } in
        let free = place_free row refl refl refl absent in
        let after : Db = record db { pages = db.pages ++ row ∷ []; next_page = db.next_page + 1 } in
        let saved : insert_page (new_page s.id_site subpath params now) db ≡ (returned row, after) =
          unfold insert_page in rw free in
        (
          row,
          true,
          after,
          rw (e, saved),
          record {
            place = ground (arith, text_eq_self subpath, text_eq_self params);
            row = λ t h. ground (arith, any-snoc t db.pages row);
            news = rw absent;
            stays = λ t h. ground (arith, any-snoc t db.pages row);
            others = λ t h. ground (arith, any-snoc t db.pages row);
            same_sites = refl;
            same_links = refl;
            same_values = refl;
            consistent =
                rw saved at
                  (insert_page-IsConsistent (new_page s.id_site subpath params now) db c owner);
          },
        )
  ]

module _ (s : Site) (subpath params : Text) (db : Db) (now later : ℕ) where
  found_again :
      (page : Page) (created : Bool) (after : Db)
      → Loads s subpath params db page created after
      → (again : Page) × (load_or_create s subpath params later after
          ≡ (returned (again, false), after))
        × (again.id_page ≡ page.id_page)
  unfolding load_or_create
  found_again page created after l = elim (Option-cases (found_at s subpath params after)) [
    | inl e ↦
        let absent = found_at-none s subpath params after e in
        let here = l.row (at_url s.id_site subpath params) l.place in absurd (ground arith)
    | inr (again, e) ↦
        let (row, place) = found_at-some s subpath params after again e in
        let same =
          Among-unique (at_url s.id_site subpath params) after.pages page again
            (l.consistent.pages.urls s.id_site subpath params) l.row row l.place place
            (has_id page.id_page) (==_self page.id_page) in
        (again, rw e, ground arith)
  ]

  -- In a consistent database that holds the site, a second call of `load_or_create` for the same
  -- path and parameters returns the page of the first and makes nothing, and the database holds
  -- that page once.
  pub load_or_create-twice :
      IsConsistent db
      → any (has_site_id s.id_site) db.sites ≡ true
      → (page again : Page) × (created : Bool) × (after : Db) × (load_or_create s subpath params now
            db
          ≡ (returned (page, created), after))
        × (load_or_create s subpath params later after ≡ (returned (again, false), after))
        × (again.id_page ≡ page.id_page)
        × (count_if after.pages (at_url s.id_site subpath params) ≡ 1)
  load_or_create-twice c owner =
      let (page, created, after, run, l) = load_or_create-Loads s subpath params db now c owner in
      let (again, rerun, same) = found_again page created after l in
      (
        page,
        again,
        created,
        after,
        run,
        rerun,
        same,
        ground (
          arith,
          l.row (at_url s.id_site subpath params) l.place,
          any-of-count_if (at_url s.id_site subpath params) after.pages,
          l.consistent.pages.urls s.id_site subpath params,
        ),
      )

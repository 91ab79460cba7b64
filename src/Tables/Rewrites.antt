-- ===== src/Tables/Rewrites.antt =====
-- `save()` of a page that was read from the table and had some of its columns changed.
use spidercheck.Prelude.{
  ℕ, ◌≡◌, refl, Bool, true, false, not, ◌&&◌, List, [], ◌∷◌, text_eq_self, any, ◌==◌, ==_self,
  arith, inl, inr, Bool-cases,
}
use spidercheck.Results.{returned}
use spidercheck.Rows.{replace}
use spidercheck.Rows.Among.{Among, Among-excludes}
use spidercheck.Rows.Laws.{any-replace-new}
use spidercheck.Models.{Page, Db}
use spidercheck.Tables.{has_id, in_site, at_url, is_link, page_taken, save_page}
use spidercheck.Tables.Consistent.{IsConsistent}
use spidercheck.Tables.Saves.{IsSavable, page_key, has_id-replace, save_page-IsConsistent}

-- The columns that the checks of a page leave alone.
pub record SamePlace (page new : Page) : Type 0 where
  pub id_page : new.id_page ≡ page.id_page
  pub site : new.site ≡ page.site
  pub subpath : new.subpath ≡ page.subpath
  pub params : new.params ≡ page.params

-- What the save leaves: the new row in place of the old one.
pub record Saved (page new : Page) (db after : Db) : Type 0 where
  pub run : (now : ℕ) → save_page now new db ≡ (returned tt, after)
  pub row : Among after.pages new
  pub ids : (i : ℕ) → any (has_id i) after.pages ≡ any (has_id i) db.pages
  pub others :
      (t : Page → Bool) → t page ≡ false → t new ≡ false → any t after.pages ≡ any t db.pages
  pub same_sites : after.sites ≡ db.sites
  pub same_links : after.links ≡ db.links
  pub same_values : after.values ≡ db.values
  pub consistent : IsConsistent after

replace-others :
    (new : Page) (t : Page → Bool) (pages : List Page)
    → any (λ x. has_id new.id_page x && t x) pages ≡ false
    → t new ≡ false
    → any t (replace page_key new pages) ≡ any t pages
unfolding any replace
replace-others new t [] h e = refl
replace-others new t (x ∷ pages) h e = ground (arith, replace-others new t pages)

module _ (page new : Page) (db : Db) (c : IsConsistent db) (row : Among db.pages page)
    (same : SamePlace page new) where
  present : any (has_id page.id_page) db.pages ≡ true
  present = row (has_id page.id_page) (==_self page.id_page)

  -- No other row holds the place of the page.
  free : page_taken new db.pages ≡ false
  unfolding page_taken
  free =
      rw (same.id_page, same.site, same.subpath, same.params)
        (Among-excludes (at_url page.site page.subpath page.params)
          (λ x. not (x.id_page == page.id_page)) db.pages page
          (c.pages.urls page.site page.subpath page.params) row
          (ground (arith, ==_self page.site, text_eq_self page.subpath, text_eq_self page.params))
          (ground (arith, ==_self page.id_page)))

  -- The row may be written back, if no link ends at it or it still accepts links.
  pub row-IsSavable :
      ((a : ℕ) → any (is_link a page.id_page) db.links ≡ true → new.is_linkable ≡ true)
      → IsSavable new db
  row-IsSavable open' = record {
    present = rw same.id_page present;
    owner = rw same.site (c.pages.owners page.site (row (in_site page.site) (==_self page.site)));
    linked = λ a h. open' a (rw same.id_page at h);
  }

  pub save_row :
      ((a : ℕ) → any (is_link a page.id_page) db.links ≡ true → new.is_linkable ≡ true)
      → (after : Db) × Saved page new db after
  save_row open' =
      let after : Db = record db { pages = replace page_key new db.pages } in
      let run : (now : ℕ) → save_page now new db ≡ (returned tt, after) =
        λ now. unfold save_page in rw (free, same.id_page, present) in
      (
        after,
        record {
          run = run;
          row = λ t h. any-replace-new page_key new t db.pages h (rw same.id_page present);
          ids = has_id-replace new db.pages;
          others = λ t old e.
              replace-others new t db.pages
                (rw same.id_page (
                  Among-excludes (has_id page.id_page) t db.pages page (c.pages.ids page.id_page)
                    row (==_self page.id_page) old))
                e;
          same_sites = refl;
          same_links = refl;
          same_values = refl;
          consistent = rw (run 0) at (save_page-IsConsistent new db c (row-IsSavable open') 0);
        },
      )

-- A page that links end at accepts links.
pub row-accepts :
    (page : Page) (db : Db)
    → IsConsistent db
    → Among db.pages page
    → (a : ℕ) → any (is_link a page.id_page) db.links ≡ true
    → page.is_linkable ≡ true
row-accepts page db c row a h = elim (Bool-cases page.is_linkable) [
  | inl open' ↦ open'
  | inr shut ↦ absurd (
      ground (
        arith,
        c.links.targets a page.id_page h,
        Among-excludes (has_id page.id_page) (λ p. p.is_linkable) db.pages page
            (c.pages.ids page.id_page) row (==_self page.id_page) shut,
      ))
]

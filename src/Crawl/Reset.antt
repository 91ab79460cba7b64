-- ===== src/Crawl/Reset.antt =====
-- `reset_site` of src/spidercheck/core.py: all pages of the site go, and one new page comes.
use spidercheck.Prelude.{
  ℕ, ◌≡◌, refl, ◌∙◌, Bool, true, false, not, ◌&&◌, [], ◌∷◌, none, some, arith, Text, any, any-snoc,
  keep, ◌==◌, ==_self, inl, inr, Bool-cases, Option-cases,
}
use spidercheck.Results.{returned}
use spidercheck.Rows.Kept.{any-Among}
use spidercheck.Rows.Among.{Among-excludes, keep-Among, first_row-Among}
use spidercheck.Rows.Laws.{any-keep-le, any-keep-and}
use spidercheck.Models.{Site, Page, Db, new_page}
use spidercheck.Tables.{has_id, in_site, has_site_id, is_named, delete_pages}
use spidercheck.Tables.Consistent.{IsConsistent}
use spidercheck.Tables.Inserts.{insert_page-IsConsistent}
use spidercheck.Tables.Deletes.{delete_pages-IsConsistent}
use spidercheck.Urls.{SplitUrl, UrlLib}
use spidercheck.Sites.{load_site_by_name, pages_of, found_at, load_or_create, add_page}
use spidercheck.Sites.Pages.{found_at-some}
use spidercheck.Crawl.{empty_site, reset_site}
use spidercheck.Crawl.Setup.{insert_first}

-- What a site leaves behind when its pages go.
module _ (s : Site) (db : Db) (c : IsConsistent db) where
  none_left : any (in_site s.id_site) (delete_pages (in_site s.id_site) db).pages ≡ false
  unfolding delete_pages
  none_left =
      let gone : ℕ → Bool = λ i. any (λ p. p.id_page == i && in_site s.id_site p) db.pages in
      let left = keep (λ p. not (gone p.id_page)) db.pages in
      elim (Bool-cases (any (in_site s.id_site) left)) [
        | inr bare ↦ bare
        | inl some_page ↦
            let (p, among, own) = any-Among (in_site s.id_site) left some_page in
            let (row, stays) = keep-Among (λ p. not (gone p.id_page)) db.pages p among in
            absurd (
              ground (
                arith,
                row (λ x. x.id_page == p.id_page && in_site s.id_site x),
                ==_self p.id_page,
              ))
      ]

  others_left :
      (t : Page → Bool)
      → any (λ p. not (in_site s.id_site p) && t p) (delete_pages (in_site s.id_site) db).pages
        ≡ any (λ p. not (in_site s.id_site p) && t p) db.pages
  unfolding delete_pages
  others_left t =
      let gone : ℕ → Bool = λ i. any (λ p. p.id_page == i && in_site s.id_site p) db.pages in
      let other : Page → Bool = λ p. not (in_site s.id_site p) && t p in
      elim (Bool-cases (any other db.pages)) [
        | inr absent ↦ ground (arith, any-keep-le other (λ p. not (gone p.id_page)) db.pages)
        | inl here ↦
            let (p, row, hit) = any-Among other db.pages here in
            let stays : gone p.id_page ≡ false =
              Among-excludes (has_id p.id_page) (in_site s.id_site) db.pages p
                (c.pages.ids p.id_page) row (==_self p.id_page) (ground arith) in
            rw here (
              any-keep-and other (λ p. not (gone p.id_page)) db.pages
              ∙ row (λ x. other x && not (gone x.id_page)) (ground arith))
      ]

module _ (urls : UrlLib) (name : Text) (now : ℕ) (db : Db) where
  -- If the name is that of a site whose path can be parsed, `reset_site` on a consistent database
  -- returns the site. Afterwards its pages are one page, new and unchecked, at the path; every
  -- test of the pages of other sites gives what it gave before; and the database is consistent.
  pub reset_site_lem :
      (s : Site) (info : SplitUrl)
      → IsConsistent db
      → load_site_by_name name db ≡ some s
      → urls.urlparse s.path ≡ returned info
      → (after : Db) × (reset_site urls name now db ≡ (returned s, after))
        × (pages_of s after
            ≡ record (new_page s.id_site info.path info.query now) { id_page = db.next_page } ∷ [])
        × ((t : Page → Bool)
            → any (λ p. not (in_site s.id_site p) && t p) after.pages
              ≡ any (λ p. not (in_site s.id_site p) && t p) db.pages)
        × IsConsistent after
  unfolding reset_site empty_site add_page load_or_create
  reset_site_lem s info c found parsed =
      let mid = delete_pages (in_site s.id_site) db in
      let kept : IsConsistent mid = delete_pages-IsConsistent (in_site s.id_site) db c in
      let p = new_page s.id_site info.path info.query now in
      let (after, put, pages, all, sites) = insert_first s p mid refl (none_left s db c) in
      let owner : any (has_site_id s.id_site) mid.sites ≡ true =
        unfold delete_pages load_site_by_name in
        (keep-Among (is_named name) db.sites s (first_row-Among _ s found)).0
          (has_site_id s.id_site) (==_self s.id_site) in
      let absent : found_at s info.path info.query mid ≡ none =
        elim (Option-cases (found_at s info.path info.query mid)) [
          | inl e ↦ e
          | inr (q, e) ↦
              let (row, place) = found_at-some s info.path info.query mid q e in
              let bare = none_left s db c in absurd (ground (arith, row (in_site s.id_site)))
        ] in
      (
        after,
        rw (found, parsed, absent, put) refl,
        unfold delete_pages in pages,
        (λ t. rw all (
            ground (
              arith,
              others_left s db c t,
              any-snoc (λ q. not (in_site s.id_site q) && t q) mid.pages
                  (record p { id_page = mid.next_page }),
              ==_self s.id_site,
            ))),
        rw put at (insert_page-IsConsistent p mid kept owner),
      )

-- ===== src/Views/Deleting.antt =====
-- `site_expunge` and `page_delete` of src/spidercheck/views.py as a whole, on every branch.
use spidercheck.Prelude.{
  ℕ, ◌≡◌, refl, ◌∙◌, ◌⊎◌, Bool, true, false, ◌&&◌, List, [], ◌∷◌, arith, Text, any, keep, ◌==◌, inl,
  inr, Bool-cases,
}
use spidercheck.Prelude.Int.{ℤ}
use spidercheck.Results.{returned, raised, assertion_error, Outcome-cases}
use spidercheck.Rows.Laws.{any-keep-and}
use spidercheck.Rows.Order.{any-order_by}
use spidercheck.Models.{Site, Page, Db}
use spidercheck.Urls.{UrlLib}
use spidercheck.Sites.{by_created}
use spidercheck.Tables.{has_id, in_site, is_link}
use spidercheck.Tables.Consistent.{IsConsistent}
use spidercheck.Tables.Deletes.{gone, any-has_id-delete_pages}
use spidercheck.Pages.{can_be_deleted}
use spidercheck.Views.{equals, delete_page, page_delete, ints_of, pages_in, site_expunge}
use spidercheck.Views.Expunge.{any-links_to, delete_page_lem, expunge_pages_lem}

any-weaker :
    (p q : Page → Bool) (xs : List Page)
    → ((x : Page) → p x ≡ true → q x ≡ true)
    → any q xs ≡ false
    → any p xs ≡ false
unfolding any
any-weaker p q [] f h = refl
any-weaker p q (x ∷ xs) f h = ground (arith, any-weaker p q xs f, f x)

-- What is selected is of the site.
pages_in-site :
    (ids : List ℤ) (s : Site) (db : Db) (i : ℕ)
    → any (λ p. has_id i p && in_site s.id_site p) db.pages ≡ false
    → any (has_id i) (pages_in ids s db) ≡ false
unfolding pages_in
pages_in-site ids s db i h =
    let test : Page → Bool = λ p. in_site s.id_site p && any (equals p.id_page) ids in
    any-order_by by_created (has_id i) (keep test db.pages)
    ∙ any-keep-and (has_id i) test db.pages
    ∙ any-weaker (λ p. has_id i p && test p) (λ p. has_id i p && in_site s.id_site p) db.pages
        (λ x e. ground arith) h

-- Whatever the method of the request and the texts that it holds, and also where an assertion or a
-- text that is no number ends the view: `site_expunge` keeps a consistent database consistent, and
-- the keys that no page of the site has and the links from them are afterwards what they were.
pub site_expunge_lem :
    (urls : UrlLib) (is_post : Bool) (id_pages : List Text) (s : Site) (db : Db)
    → IsConsistent db
    → IsConsistent (site_expunge urls is_post id_pages s db).1
      × ((i : ℕ)
          → any (λ p. has_id i p && in_site s.id_site p) db.pages ≡ false
          → any (has_id i) (site_expunge urls is_post id_pages s db).1.pages
            ≡ any (has_id i) db.pages)
      × ((a b : ℕ)
          → any (λ p. has_id a p && in_site s.id_site p) db.pages ≡ false
          → any (is_link a b) (site_expunge urls is_post id_pages s db).1.links
            ≡ any (is_link a b) db.links)
unfolding site_expunge
site_expunge_lem urls false id_pages s db c = (c, (λ i h. refl), (λ a b h. refl))
site_expunge_lem urls true id_pages s db c = elim (Outcome-cases (ints_of id_pages)) [
  | inr (e, stop) ↦ rw stop (c, (λ i h. refl), (λ a b h. refl))
  | inl (ids, got) ↦
      let (kept, stay, links) = expunge_pages_lem urls (pages_in ids s db) db c in
      rw got (
        kept,
        (λ i h. stay i (pages_in-site ids s db i h)),
        (λ a b h. links a b (pages_in-site ids s db a h)),
      )
]

-- The page itself goes.
gone_self :
    (page : Page) (db : Db)
    → gone (has_id page.id_page) db page.id_page ≡ any (has_id page.id_page) db.pages
unfolding any
gone_self page db = go db.pages
  where
    go :
        (ps : List Page)
        → any (λ p. p.id_page == page.id_page && has_id page.id_page p) ps
          ≡ any (has_id page.id_page) ps
    go [] = refl
    go (p ∷ ps) = ground (arith, go ps)

-- For a request that is a POST and a page of a consistent database: if a link ends at the page, one
-- from the page itself included, `page_delete` ends in an assertion and changes nothing; if no link
-- ends at it, `page_delete` removes the page and leaves every other page, and every link that does
-- not start at the page. One of the two holds.
pub page_delete_lem :
    (page : Page) (db : Db)
    → IsConsistent db
    → ((any (λ l. l.to_page == page.id_page) db.links ≡ true)
        × (page_delete true page db ≡ (raised assertion_error, db)))
      ⊎ ((any (λ l. l.to_page == page.id_page) db.links ≡ false)
          × ((after : Db) × (page_delete true page db ≡ (returned tt, after))
              × IsConsistent after
              × (any (has_id page.id_page) after.pages ≡ false)
              × ((i : ℕ)
                  → (page.id_page == i) ≡ false
                  → any (has_id i) after.pages ≡ any (has_id i) db.pages)
              × ((a b : ℕ)
                  → (page.id_page == a) ≡ false
                  → any (is_link a b) after.links ≡ any (is_link a b) db.links)))
unfolding page_delete
page_delete_lem page db c = elim (Bool-cases (can_be_deleted page db)) [
  | inr linked ↦ inl (ground (arith, any-links_to page db), rw linked refl)
  | inl free ↦
      let (kept, stay, links) = delete_page_lem page db c free in
      inr (
        ground (arith, any-links_to page db),
        (
          delete_page page db,
          rw free refl,
          kept,
          ground (
            arith,
            any-has_id-delete_pages (has_id page.id_page) db page.id_page,
            gone_self page db,
          ),
          stay,
          links,
        ),
      )
]

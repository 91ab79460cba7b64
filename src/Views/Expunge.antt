-- ===== src/Views/Expunge.antt =====
-- The views of src/spidercheck/views.py that delete pages.
use spidercheck.Prelude.{
  ℕ, ◌≡◌, refl, ◌∙◌, Bool, true, false, not, ◌&&◌, List, [], ◌∷◌, arith, any, keep, length, ◌==◌,
  inl, inr, Bool-cases,
}
use spidercheck.Models.{Page, Link, Db}
use spidercheck.Tables.{has_id, is_link}
use spidercheck.Tables.Consistent.{IsConsistent}
use spidercheck.Tables.Deletes.{
  delete_pages-IsConsistent, gone, any-has_id-delete_pages, any-is_link-delete_pages,
}
use spidercheck.Pages.{can_be_deleted, full_url_of}
use spidercheck.Results.{Outcome-cases}
use spidercheck.Urls.{UrlLib}
use spidercheck.Views.{expunge_pages, delete_page}

any-of-length : (q : Link → Bool) (ls : List Link) → any q ls ≡ not (length (keep q ls) == 0)
unfolding any keep
any-of-length q [] = refl
any-of-length q (l ∷ ls) = elim (Bool-cases (q l)) [
  | inl e ↦ rw e (ground arith)
  | inr e ↦ rw e (any-of-length q ls)
]

any-is_link-le :
    (a b : ℕ) (ls : List Link) → any (is_link a b) ls ≡ true → any (λ l. l.to_page == b) ls ≡ true
unfolding any
any-is_link-le a b [] h = h
any-is_link-le a b (l ∷ ls) h = ground (arith, any-is_link-le a b ls)

-- A page that may be deleted has no link to it.
pub no_link_to :
    (page : Page) (db : Db) (a : ℕ)
    → can_be_deleted page db ≡ true
    → any (is_link a page.id_page) db.links ≡ false
unfolding can_be_deleted
no_link_to page db a h = ground (
  arith,
  any-of-length (λ l. l.to_page == page.id_page) db.links,
  any-is_link-le a page.id_page db.links,
)

-- One page goes, and no other.
pub gone-page :
    (page : Page) (db : Db) (i : ℕ)
    → (page.id_page == i) ≡ false
    → gone (has_id page.id_page) db i ≡ false
unfolding any
gone-page page db i h = go db.pages
  where
    go : (ps : List Page) → any (λ p. p.id_page == i && has_id page.id_page p) ps ≡ false
    go [] = refl
    go (p ∷ ps) = ground (arith, go ps)

-- A page may go exactly if no link ends at it.
pub any-links_to :
    (page : Page) (db : Db)
    → any (λ l. l.to_page == page.id_page) db.links ≡ not (can_be_deleted page db)
unfolding can_be_deleted
any-links_to page db = any-of-length (λ l. l.to_page == page.id_page) db.links

-- A page that may go, goes, and the others and the links from them stay.
pub delete_page_lem :
    (page : Page) (db : Db)
    → IsConsistent db
    → can_be_deleted page db ≡ true
    → IsConsistent (delete_page page db)
      × ((i : ℕ)
          → (page.id_page == i) ≡ false
          → any (has_id i) (delete_page page db).pages ≡ any (has_id i) db.pages)
      × ((a b : ℕ)
          → (page.id_page == a) ≡ false
          → any (is_link a b) (delete_page page db).links ≡ any (is_link a b) db.links)
delete_page_lem page db c free = (
  delete_pages-IsConsistent (has_id page.id_page) db c,
  (λ i h. ground (arith, any-has_id-delete_pages (has_id page.id_page) db i, gone-page page db i)),
  (λ a b h. elim (Bool-cases (page.id_page == b)) [
    | inl target ↦
        let e : page.id_page ≡ b = ground arith in
        let bare : any (is_link a b) db.links ≡ false = rw (← e) (no_link_to page db a free) in
        ground (arith, any-is_link-delete_pages (has_id page.id_page) db a b)
    | inr other ↦ ground (
      arith,
      any-is_link-delete_pages (has_id page.id_page) db a b,
      gone-page page db a,
      gone-page page db b,
    )
  ]),
)

module _ (urls : UrlLib) where
  -- Whatever pages the loop of the views that expunge is given, a consistent database stays
  -- consistent, and the pages that are not given and the links from them are afterwards what they
  -- were.
  pub expunge_pages_lem :
      (pages : List Page) (db : Db)
      → IsConsistent db
      → IsConsistent (expunge_pages urls pages db).1
        × ((i : ℕ)
            → any (has_id i) pages ≡ false
            → any (has_id i) (expunge_pages urls pages db).1.pages ≡ any (has_id i) db.pages)
        × ((a b : ℕ)
            → any (has_id a) pages ≡ false
            → any (is_link a b) (expunge_pages urls pages db).1.links ≡ any (is_link a b) db.links)
  unfolding expunge_pages any
  expunge_pages_lem [] db c = (c, (λ i h. refl), (λ a b h. refl))
  expunge_pages_lem (page ∷ pages) db c = elim (Bool-cases (can_be_deleted page db)) [
    | inr linked ↦ elim (Outcome-cases (full_url_of urls page db)) [
      | inr (e, stop) ↦ rw (linked, stop) (c, (λ i h. refl), (λ a b h. refl))
      | inl (shown, got) ↦
          let (kept, ids, links) = expunge_pages_lem pages db c in
          rw (linked, got)
            (kept, (λ i h. ids i (ground arith)), (λ a b h. links a b (ground arith)))
    ]
    | inl free ↦
        let (mid, stay, from) = delete_page_lem page db c free in
        let (kept, ids, links) = expunge_pages_lem pages (delete_page page db) mid in
        rw free (
          kept,
          (λ i h. ids i (ground arith) ∙ stay i (ground arith)),
          (λ a b h. links a b (ground arith) ∙ from a b (ground arith)),
        )
  ]

-- ===== src/Views/Toggle.antt =====
-- `toogle_is_linkable` of src/spidercheck/views.py.
use spidercheck.Prelude.{
  ℕ, ◌≡◌, refl, ap, ◌∙◌, true, false, not, ◌&&◌, arith, any, ◌==◌, ==_self, if◌then◌else◌, inl, inr,
  Bool-cases,
}
use spidercheck.Results.{returned}
use spidercheck.Rows.Among.{Among}
use spidercheck.Rows.Laws.{any-keep}
use spidercheck.Models.{Page, Db}
use spidercheck.Action.{pure, ◌>>=◌}
use spidercheck.Tables.{is_link, delete_links, save_page}
use spidercheck.Tables.Consistent.{IsConsistent}
use spidercheck.Tables.Deletes.{delete_links-IsConsistent}
use spidercheck.Tables.Rewrites.{SamePlace, save_row}
use spidercheck.Views.{toogle_is_linkable, links_to}

abbrev pub toggled : Page → Page
toggled page = record page { is_linkable = not page.is_linkable }

any-delete_links_to :
    (page : Page) (db : Db) (a b : ℕ)
    → any (is_link a b) (delete_links (λ l. l.to_page == page.id_page) db).links
      ≡ not (b == page.id_page) && any (is_link a b) db.links
unfolding delete_links
any-delete_links_to page db a b =
    any-keep (is_link a b) (λ l. not (l.to_page == page.id_page)) (not (b == page.id_page)) db.links
      λ l h. let e : l.to_page ≡ b = ground arith in rw e refl

module _ (now : ℕ) (page : Page) (db : Db) where
  toogle-shut :
      page.is_linkable ≡ false
      → toogle_is_linkable now page db ≡ (save_page now (toggled page) >>= λ _. pure 0) db
  unfolding toogle_is_linkable
  toogle-shut shut = rw shut refl

  toogle-open :
      page.is_linkable ≡ true
      → toogle_is_linkable now page db
        ≡ (save_page now (toggled page) >>= λ _. pure (links_to page db))
            (delete_links (λ l. l.to_page == page.id_page) db)
  unfolding toogle_is_linkable
  toogle-open open' = rw open' refl

  same : SamePlace page (toggled page)
  same = record { id_page = refl; site = refl; subpath = refl; params = refl }

  -- If a page was read from a consistent database, `toogle_is_linkable` stores it with the flag turned. If
  -- it accepted links, all links to it are gone afterwards and their number is reported; no other
  -- link and no value changes, and the database is consistent.
  pub toogle_is_linkable_lem :
      IsConsistent db
      → Among db.pages page
      → (counter : ℕ) × (after : Db) × (toogle_is_linkable now page db ≡ (returned counter, after))
        × (counter ≡ (if page.is_linkable then links_to page db else 0))
        × IsConsistent after
        × Among after.pages (toggled page)
        × ((a b : ℕ)
            → any (is_link a b) after.links
              ≡ not (page.is_linkable && b == page.id_page) && any (is_link a b) db.links)
        × (after.values ≡ db.values)
  toogle_is_linkable_lem c row = elim (Bool-cases page.is_linkable) [
    | inr shut ↦
        let (after, w) = save_row page (toggled page) db c row same (λ a h. ground arith) in
        (
          0,
          after,
          toogle-shut shut ∙ rw (w.run now) refl,
          rw shut refl,
          w.consistent,
          w.row,
          (λ a b. ap (any (is_link a b)) w.same_links ∙ rw shut refl),
          w.same_values,
        )
    | inl open' ↦
        let mid = delete_links (λ l. l.to_page == page.id_page) db in
        let kept : IsConsistent mid = delete_links-IsConsistent _ db c in
        let (after, w) =
          save_row page (toggled page) mid kept (unfold delete_links in row) same (λ a h.
            absurd
              (ground (arith, any-delete_links_to page db a page.id_page, ==_self page.id_page))) in
        (
          links_to page db,
          after,
          toogle-open open' ∙ rw (w.run now) refl,
          rw open' refl,
          w.consistent,
          w.row,
          (λ a b.
              ap (any (is_link a b)) w.same_links
              ∙ any-delete_links_to page db a b
              ∙ rw open' refl),
          w.same_values ∙ unfold delete_links in refl,
        )
  ]

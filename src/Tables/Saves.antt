-- ===== src/Tables/Saves.antt =====
-- Saving a page that is there keeps the database consistent.
use native.Mathlib.Nat.{le_trans}
use spidercheck.Prelude.{
  ℕ, ◌≤◌, ◌≡◌, true, false, List, Text, any, ◌==◌, arith, inl, inr, Bool-cases,
}
use spidercheck.Seq.{count_if}
use spidercheck.Rows.{replace}
use spidercheck.Rows.Laws.{
  any-replace, any-replace-le, any-replace-new, count_if-replace, count_if-replace-le,
  count_if-replace-key,
}
use spidercheck.Models.{Page, Db}
use spidercheck.Tables.{
  has_id, in_site, at_url, accepts_links, is_link, has_site_id, page_taken, save_page,
}
use spidercheck.Tables.Inserts.{at_url_eq}
use spidercheck.Tables.Consistent.{ArePages, AreLinks, IsConsistent}

abbrev pub page_key : Page → ℕ
page_key p = p.id_page

module _ (p : Page) (pages : List Page) where
  pub has_id-replace : (i : ℕ) → any (has_id i) (replace page_key p pages) ≡ any (has_id i) pages
  has_id-replace i = any-replace page_key p (has_id i) pages (λ x e. ground arith)

  -- Saving an instance that is the row but for other columns leaves the place of a page alone.
  urls-replace :
      (s : ℕ) (subpath params : Text)
      → count_if pages (has_id p.id_page) ≤ 1
      → count_if pages (at_url s subpath params) ≤ 1
      → page_taken p pages ≡ false
      → count_if (replace page_key p pages) (at_url s subpath params) ≤ 1
  unfolding page_taken
  urls-replace s subpath params ids urls free = elim (Bool-cases (at_url s subpath params p)) [
    | inl same ↦
        let (es, eb, ep) = at_url_eq s subpath params p same in
        rw (es, eb, ep)
          (le_trans (count_if-replace-key page_key p (at_url p.site p.subpath p.params) pages free)
            ids)
    | inr other ↦
        le_trans (count_if-replace-le page_key p (at_url s subpath params) pages other) urls
  ]

  accepts_links-replace :
      (b : ℕ)
      → any (has_id p.id_page) pages ≡ true
      → (b ≡ p.id_page → p.is_linkable ≡ true)
      → any (accepts_links b) pages ≡ true
      → any (accepts_links b) (replace page_key p pages) ≡ true
  accepts_links-replace b present open' h = elim (Bool-cases (p.id_page == b)) [
    | inl same ↦
        any-replace-new page_key p (accepts_links b) pages (ground (arith, open' (ground arith)))
          present
    | inr other ↦ rw (any-replace page_key p (accepts_links b) pages (λ x e. ground arith)) h
  ]

-- The conditions under which the instance may be written back.
pub record IsSavable (p : Page) (db : Db) : Type 0 where
  pub present : any (has_id p.id_page) db.pages ≡ true
  pub owner : any (has_site_id p.site) db.sites ≡ true
  pub linked : (a : ℕ) → any (is_link a p.id_page) db.links ≡ true → p.is_linkable ≡ true

module _ (p : Page) (db : Db) (c : IsConsistent db) (ok : IsSavable p db) where
  replace-ArePages :
      page_taken p db.pages ≡ false → ArePages db.sites (replace page_key p db.pages) db.next_page
  replace-ArePages free = record {
    fresh = λ i h. c.pages.fresh i (rw has_id-replace at h);
    ids = λ i.
        rw (count_if-replace page_key p (has_id i) db.pages (λ x e. ground arith)) (c.pages.ids i);
    urls = λ s b q. urls-replace p db.pages s b q (c.pages.ids p.id_page) (c.pages.urls s b q) free;
    owners = λ s h. elim (Bool-cases (in_site s p)) [
      | inl own ↦ let e : p.site ≡ s = ground arith in rw (← e) ok.owner
      | inr other ↦ c.pages.owners s (any-replace-le page_key p (in_site s) db.pages other h)
    ];
  }

  replace-AreLinks : AreLinks (replace page_key p db.pages) db.links
  replace-AreLinks = record {
    pairs = c.links.pairs;
    sources = λ a b h. rw has_id-replace (c.links.sources a b h);
    targets = λ a b h.
        accepts_links-replace p db.pages b ok.present (λ e. ok.linked a (rw e at h))
          (c.links.targets a b h);
  }

  -- Saving a page into a consistent database keeps it consistent, whether the constraints let it in or
  -- not, if its row is there, its site is there, and it accepts links if a link ends at it.
  pub save_page-IsConsistent : (now : ℕ) → IsConsistent (save_page now p db).1
  unfolding save_page
  save_page-IsConsistent now = elim (Bool-cases (page_taken p db.pages)) [
    | inl taken ↦ rw taken c
    | inr free ↦
        rw (free, ok.present)
          (record {
            sites = c.sites;
            pages = replace-ArePages free;
            links = replace-AreLinks;
            values = record {
              fresh = c.values.fresh;
              ids = c.values.ids;
              names = c.values.names;
              owners = λ i n h. rw has_id-replace (c.values.owners i n h);
            };
            scheduled = record {
              ids = c.scheduled.ids;
              owners = λ i h. rw has_id-replace (c.scheduled.owners i h);
            };
          })
  ]

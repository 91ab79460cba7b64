-- ===== src/Tables/Deletes.antt =====
-- Deletes keep the database consistent: what goes takes the rows that refer to it along.
use native.Mathlib.Nat.{le_trans}
use spidercheck.Prelude.{
  ℕ, ◌≤◌, ◌≡◌, refl, Bool, List, Text, any, keep, ◌==◌, arith, not, ◌&&◌, ◌||◌,
}
use spidercheck.Seq.{count_if}
use spidercheck.Rows.Laws.{any-keep, any-keep-le, count_if-keep-le}
use spidercheck.Models.{Page, Link, Value, Db}
use spidercheck.Tables.{
  has_id, accepts_links, is_link, is_value, delete_pages, delete_links, delete_values,
}
use spidercheck.Tables.Consistent.{
  is_scheduled, ArePages, AreLinks, AreValues, AreScheduled, IsConsistent,
}

-- Fewer links are links still.
pub delete_links-IsConsistent :
    (doomed : Link → Bool) (db : Db) → IsConsistent db → IsConsistent (delete_links doomed db)
unfolding delete_links
delete_links-IsConsistent doomed db c = record {
  sites = c.sites;
  pages = c.pages;
  links = record {
    pairs = λ a b. le_trans (count_if-keep-le _ _ db.links) (c.links.pairs a b);
    sources = λ a b h. c.links.sources a b (any-keep-le _ _ db.links h);
    targets = λ a b h. c.links.targets a b (any-keep-le _ _ db.links h);
  };
  values = c.values;
  scheduled = c.scheduled;
}

module _ (pages : List Page) (values : List Value) (next : ℕ) (q : Value → Bool) where
  keep-AreValues : AreValues pages values next → AreValues pages (keep q values) next
  keep-AreValues c = record {
    fresh = λ i h. c.fresh i (any-keep-le _ q values h);
    ids = λ i. le_trans (count_if-keep-le _ q values) (c.ids i);
    names = λ i n. le_trans (count_if-keep-le _ q values) (c.names i n);
    owners = λ i n h. c.owners i n (any-keep-le _ q values h);
  }

pub delete_values-IsConsistent :
    (doomed : Value → Bool) (db : Db) → IsConsistent db → IsConsistent (delete_values doomed db)
unfolding delete_values
delete_values-IsConsistent doomed db c = record {
  sites = c.sites;
  pages = c.pages;
  links = c.links;
  values = keep-AreValues db.pages db.values db.next_value (λ v. not (doomed v)) c.values;
  scheduled = c.scheduled;
}

module _ (doomed : Page → Bool) (db : Db) where
  -- Whether the page of this key goes.
  abbrev pub gone : ℕ → Bool
  gone i = any (λ p. p.id_page == i && doomed p) db.pages

  pub any-has_id-delete_pages :
      (i : ℕ)
      → any (has_id i) (delete_pages doomed db).pages ≡ not (gone i) && any (has_id i) db.pages
  unfolding delete_pages
  any-has_id-delete_pages i =
      any-keep (has_id i) (λ p. not (gone p.id_page)) (not (gone i)) db.pages
        λ p h. let e : p.id_page ≡ i = ground arith in rw e refl

  any-accepts_links-delete_pages :
      (i : ℕ)
      → any (accepts_links i) (delete_pages doomed db).pages
        ≡ not (gone i) && any (accepts_links i) db.pages
  unfolding delete_pages
  any-accepts_links-delete_pages i =
      any-keep (accepts_links i) (λ p. not (gone p.id_page)) (not (gone i)) db.pages
        λ p h. let e : p.id_page ≡ i = ground arith in rw e refl

  pub any-is_link-delete_pages :
      (a b : ℕ)
      → any (is_link a b) (delete_pages doomed db).links
        ≡ not (gone a || gone b) && any (is_link a b) db.links
  unfolding delete_pages
  any-is_link-delete_pages a b =
      any-keep (is_link a b) (λ l. not (gone l.from_page || gone l.to_page))
        (not (gone a || gone b)) db.links
        λ l h.
          let e : l.from_page ≡ a = ground arith in
          let f : l.to_page ≡ b = ground arith in rw (e, f) refl

  any-is_value-delete_pages :
      (i : ℕ) (name : Text)
      → any (is_value i name) (delete_pages doomed db).values
        ≡ not (gone i) && any (is_value i name) db.values
  unfolding delete_pages
  any-is_value-delete_pages i name =
      any-keep (is_value i name) (λ v. not (gone v.page)) (not (gone i)) db.values
        λ v h. let e : v.page ≡ i = ground arith in rw e refl

  any-is_scheduled-delete_pages :
      (i : ℕ)
      → any (is_scheduled i) (delete_pages doomed db).scheduled
        ≡ not (gone i) && any (is_scheduled i) db.scheduled
  unfolding delete_pages
  any-is_scheduled-delete_pages i =
      any-keep (is_scheduled i) (λ s. not (gone s.page)) (not (gone i)) db.scheduled
        λ s h. let e : s.page ≡ i = ground arith in rw e refl

  module _ (c : IsConsistent db) where
    delete_pages-ArePages : ArePages db.sites (delete_pages doomed db).pages db.next_page
    unfolding delete_pages
    delete_pages-ArePages = record {
      fresh = λ i h. c.pages.fresh i (any-keep-le _ _ db.pages h);
      ids = λ i. le_trans (count_if-keep-le _ _ db.pages) (c.pages.ids i);
      urls = λ s b q. le_trans (count_if-keep-le _ _ db.pages) (c.pages.urls s b q);
      owners = λ s h. c.pages.owners s (any-keep-le _ _ db.pages h);
    }

    delete_pages-pairs : (a b : ℕ) → count_if (delete_pages doomed db).links (is_link a b) ≤ 1
    unfolding delete_pages
    delete_pages-pairs a b = le_trans (count_if-keep-le _ _ db.links) (c.links.pairs a b)

    delete_pages-AreLinks : AreLinks (delete_pages doomed db).pages (delete_pages doomed db).links
    delete_pages-AreLinks = record {
      pairs = delete_pages-pairs;
      sources = λ a b h.
          ground
            (arith, any-is_link-delete_pages a b, any-has_id-delete_pages a, c.links.sources a b);
      targets = λ a b h. ground (
        arith,
        any-is_link-delete_pages a b,
        any-accepts_links-delete_pages b,
        c.links.targets a b,
      );
    }

    kept-AreValues : AreValues db.pages (delete_pages doomed db).values db.next_value
    unfolding delete_pages
    kept-AreValues =
        keep-AreValues db.pages db.values db.next_value (λ v. not (gone v.page)) c.values

    delete_pages-AreValues :
        AreValues (delete_pages doomed db).pages (delete_pages doomed db).values db.next_value
    delete_pages-AreValues = record {
      fresh = kept-AreValues.fresh;
      ids = kept-AreValues.ids;
      names = kept-AreValues.names;
      owners = λ i n h.
          ground
            (arith, any-is_value-delete_pages i n, any-has_id-delete_pages i, c.values.owners i n);
    }

    delete_pages-AreScheduled :
        AreScheduled (delete_pages doomed db).pages (delete_pages doomed db).scheduled
    delete_pages-AreScheduled = record {
      ids =
          unfold delete_pages in
          λ i. le_trans (count_if-keep-le _ _ db.scheduled) (c.scheduled.ids i);
      owners = λ i h.
          ground (
            arith,
            any-is_scheduled-delete_pages i,
            any-has_id-delete_pages i,
            c.scheduled.owners i,
          );
    }

    -- Whatever the condition, deleting the pages that it selects keeps a consistent database consistent.
    pub delete_pages-IsConsistent : IsConsistent (delete_pages doomed db)
    delete_pages-IsConsistent = record {
      sites = unfold delete_pages in c.sites;
      pages = unfold delete_pages in delete_pages-ArePages;
      links = delete_pages-AreLinks;
      values = unfold delete_pages in delete_pages-AreValues;
      scheduled = delete_pages-AreScheduled;
    }

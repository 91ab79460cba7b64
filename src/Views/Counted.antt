-- ===== src/Views/Counted.antt =====
-- How the numbers that `site_detail` of src/spidercheck/views.py shows stand to each other.
use spidercheck.Prelude.{
  ℕ, ◌+◌, ◌-◌, ◌≤◌, ◌≡◌, refl, Bool, true, false, ◌&&◌, ◌||◌, List, [], ◌∷◌, Text, codes, text_eq,
  arith, any, keep, length, ◌==◌, if◌then◌else◌, inl, inr, Bool-cases,
}
use spidercheck.Seq.{count_if}
use spidercheck.Rows.{order_by}
use spidercheck.Rows.Laws.{length-keep}
use spidercheck.Rows.Among.{length-order_by, length-keep-add}
use spidercheck.Models.{Site, Page, Value, Db}
use spidercheck.Tables.{in_site, is_value}
use spidercheck.Tables.Consistent.{IsConsistent}
use spidercheck.Sites.{
  pages_of, checked, unchecked, has_error, by_created, by_checked, by_checked_desc, some_row,
  all_queued_pages, pages_with_errors,
}
use spidercheck.Sites.Counts.{total, count_values_lem}
use spidercheck.Views.Contexts.{not_linkable, site_detail}

-- A test that needs one of two others counts no more than both.
count_if-le-add :
    (t a b : Value → Bool) (vs : List Value)
    → ((v : Value) → t v ≡ true → a v || b v ≡ true)
    → count_if vs t ≤ count_if vs a + count_if vs b
unfolding count_if
count_if-le-add t a b [] h = omega arith
count_if-le-add t a b (v ∷ vs) h = ground (arith, count_if-le-add t a b vs h, h v)

count_if-never :
    (t : Value → Bool) (vs : List Value) → ((v : Value) → t v ≡ false) → count_if vs t ≡ 0
unfolding count_if
count_if-never t [] h = refl
count_if-never t (v ∷ vs) h = ground (arith, count_if-never t vs h, h v)

-- The values of the name on pages of the site.
abbrev owned : ℕ → Text → List Page → Value → Bool
owned s name ps v = text_eq v.name name && any (λ p. p.id_page == v.page && in_site s p) ps

-- Where each page has at most one value of the name, there are no more than pages.
count_if-counts :
    (s : ℕ) (name : Text) (vs : List Value) (ps : List Page)
    → ((i : ℕ) → count_if vs (is_value i name) ≤ 1)
    → count_if vs (owned s name ps) ≤ count_if ps (in_site s)
unfolding any count_if
count_if-counts s name vs [] h =
    omega (arith, count_if-never (λ v. text_eq v.name name && false) vs (λ v. ground arith))
count_if-counts s name vs (p ∷ ps) h = elim (Bool-cases (in_site s p)) [
  | inl own ↦ ground (
    arith,
    count_if-le-add (owned s name (p ∷ ps)) (is_value p.id_page name) (owned s name ps) vs
        (λ v k. ground arith),
    h p.id_page,
    count_if-counts s name vs ps h,
  )
  | inr other ↦ ground (
    arith,
    count_if-le-add (owned s name (p ∷ ps)) (λ v. false) (owned s name ps) vs (λ v k. ground arith),
    count_if-never (λ v. false) vs (λ v. refl),
    count_if-counts s name vs ps h,
  )
]

length-keep-imp :
    (p q : Page → Bool) (ps : List Page)
    → ((x : Page) → p x ≡ true → q x ≡ true)
    → length (keep p ps) ≤ length (keep q ps)
unfolding keep
length-keep-imp p q [] h = omega arith
length-keep-imp p q (x ∷ ps) h = ground (arith, length-keep-imp p q ps h, h x)

queued :
    (s : Site) (db : Db)
    → length (all_queued_pages s db) ≡ (
        if length (keep checked (pages_of s db)) == length (pages_of s db)
        then length (pages_of s db)
        else length (pages_of s db) - length (keep checked (pages_of s db)))
unfolding all_queued_pages
queued s db =
    let rows = pages_of s db in
    let fresh = order_by by_created (keep unchecked rows) in
    let many = length-order_by by_created (keep unchecked rows) in
    let all = length-keep-add checked rows in
    elim (Bool-cases (some_row fresh)) [
      | inl waiting ↦ rw waiting (ground (arith, many, all))
      | inr none_waits ↦
          rw none_waits (ground (arith, many, all, length-order_by by_checked (keep checked rows)))
    ]

-- In a consistent database, of the numbers that `site_detail` shows of a site: the pages with errors
-- are among those that were processed, these and the pages without links are among all pages; the
-- queue has the pages that were not processed, or all pages where there are none; and the versions
-- count no page twice.
pub site_detail_lem :
    (s : Site) (db : Db)
    → IsConsistent db
    → ((site_detail s db).num_errores ≤ (site_detail s db).num_processed)
      × ((site_detail s db).num_processed ≤ (site_detail s db).num_pages)
      × ((site_detail s db).num_no_links ≤ (site_detail s db).num_pages)
      × ((site_detail s db).num_queued ≡ (
          if (site_detail s db).num_processed == (site_detail s db).num_pages
          then (site_detail s db).num_pages
          else (site_detail s db).num_pages - (site_detail s db).num_processed))
      × (total (site_detail s db).versiones ≤ (site_detail s db).num_pages)
unfolding site_detail pages_with_errors
site_detail_lem s db c =
    let rows = pages_of s db in
    let processed = length-keep-add checked rows in
    (
      omega (
        arith,
        length-order_by by_checked_desc (keep has_error rows),
        length-keep-imp has_error checked rows (λ x h. ground arith),
      ),
      omega (arith, processed),
      omega (arith, length-keep-add not_linkable rows),
      queued s db,
      omega (
        arith,
        (count_values_lem s (codes "version") db).1,
        count_if-counts s.id_site (codes "version") db.values db.pages
            (λ i. c.values.names i (codes "version")),
        length-keep (in_site s.id_site) db.pages,
      ),
    )

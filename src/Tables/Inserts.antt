-- ===== src/Tables/Inserts.antt =====
-- Inserts of pages and of links keep the database consistent.
use spidercheck.Prelude.{
  ℕ, ◌+◌, ◌≡◌, refl, true, false, List, [], ◌∷◌, ◌++◌, Text, text_eq_iff, any, any-snoc, arith, inl,
  inr, Bool-cases,
}
use spidercheck.Seq.{count_if}
use spidercheck.Rows.Laws.{count_if-snoc, count_if-eq-zero, any-and-not}
use spidercheck.Models.{Site, Page, Link, Value, ScheduledPage, Db}
use spidercheck.Tables.{
  has_id, in_site, at_url, accepts_links, is_link, has_site_id, page_taken, insert_page,
  get_or_create_link,
}
use spidercheck.Tables.Consistent.{ArePages, AreLinks, AreValues, AreScheduled, IsConsistent}

-- No row holds the place of a page that is not taken, where its key is new.
at_url-free :
    (pages : List Page) (row : Page)
    → any (has_id row.id_page) pages ≡ false
    → page_taken row pages ≡ false
    → count_if pages (at_url row.site row.subpath row.params) ≡ 0
unfolding page_taken
at_url-free pages row absent free =
    elim (Bool-cases (any (at_url row.site row.subpath row.params) pages)) [
      | inl here ↦ absurd (
          ground (
            arith,
            any-and-not (at_url row.site row.subpath row.params) (has_id row.id_page) pages here
                absent,
          ))
      | inr none_here ↦ count_if-eq-zero _ pages none_here
    ]

pub at_url_eq :
    (s : ℕ) (subpath params : Text) (p : Page)
    → at_url s subpath params p ≡ true
    → (s ≡ p.site) × (subpath ≡ p.subpath) × (params ≡ p.params)
at_url_eq s subpath params p h =
    ground (arith, text_eq_iff p.subpath subpath, text_eq_iff p.params params)

module _ (sites : List Site) (pages : List Page) (next : ℕ) (row : Page) where
  ArePages-snoc :
      ArePages sites pages next
      → row.id_page ≡ next
      → any (has_site_id row.site) sites ≡ true
      → page_taken row pages ≡ false
      → ArePages sites (pages ++ row ∷ []) (next + 1)
  ArePages-snoc c new owner free =
      let absent : any (has_id row.id_page) pages ≡ false = ground (arith, c.fresh row.id_page) in
      record {
        fresh = λ i h. ground (arith, any-snoc (has_id i) pages row, c.fresh i);
        ids = λ i. ground (
          arith,
          count_if-snoc (has_id i) pages row,
          c.ids i,
          c.fresh i,
          count_if-eq-zero (has_id i) pages,
        );
        urls = λ s subpath params. elim (Bool-cases (at_url s subpath params row)) [
          | inl same ↦
              let (es, eb, ep) = at_url_eq s subpath params row same in
              rw (es, eb, ep)
                (ground (
                  arith,
                  count_if-snoc (at_url row.site row.subpath row.params) pages row,
                  at_url-free pages row absent free,
                ))
          | inr other ↦
              ground
                (arith, count_if-snoc (at_url s subpath params) pages row, c.urls s subpath params)
        ];
        owners = λ s h. ground (arith, any-snoc (in_site s) pages row, c.owners s);
      }

module _ (pages : List Page) (row : Page) where
  AreLinks-snoc_page :
      (links : List Link) → AreLinks pages links → AreLinks (pages ++ row ∷ []) links
  AreLinks-snoc_page links c = record {
    pairs = c.pairs;
    sources = λ a b h. ground (arith, any-snoc (has_id a) pages row, c.sources a b h);
    targets = λ a b h. ground (arith, any-snoc (accepts_links b) pages row, c.targets a b h);
  }

  AreValues-snoc_page :
      (values : List Value) (next : ℕ)
      → AreValues pages values next
      → AreValues (pages ++ row ∷ []) values next
  AreValues-snoc_page values next c = record {
    fresh = c.fresh;
    ids = c.ids;
    names = c.names;
    owners = λ i n h. ground (arith, any-snoc (has_id i) pages row, c.owners i n h);
  }

  AreScheduled-snoc_page :
      (scheduled : List ScheduledPage)
      → AreScheduled pages scheduled
      → AreScheduled (pages ++ row ∷ []) scheduled
  AreScheduled-snoc_page scheduled c = record {
    ids = c.ids;
    owners = λ i h. ground (arith, any-snoc (has_id i) pages row, c.owners i h);
  }

-- Saving a new page into a consistent database keeps it consistent, whether the constraints let
-- the page in or not, if its site is there.
pub insert_page-IsConsistent :
    (p : Page) (db : Db)
    → IsConsistent db
    → any (has_site_id p.site) db.sites ≡ true
    → IsConsistent (insert_page p db).1
unfolding insert_page
insert_page-IsConsistent p db c owner =
    let row = record p { id_page = db.next_page } in
    elim (Bool-cases (page_taken row db.pages)) [
      | inl taken ↦ rw taken c
      | inr free ↦ rw free (record {
        sites = c.sites;
        pages = ArePages-snoc db.sites db.pages db.next_page row c.pages refl owner free;
        links = AreLinks-snoc_page db.pages row db.links c.links;
        values = AreValues-snoc_page db.pages row db.values db.next_value c.values;
        scheduled = AreScheduled-snoc_page db.pages row db.scheduled c.scheduled;
      })
    ]

is_link_eq : (a b : ℕ) (l : Link) → is_link a b l ≡ true → (l.from_page ≡ a) × (l.to_page ≡ b)
is_link_eq a b l h = ground arith

AreLinks-snoc :
    (pages : List Page) (links : List Link) (row : Link)
    → AreLinks pages links
    → any (is_link row.from_page row.to_page) links ≡ false
    → any (has_id row.from_page) pages ≡ true
    → any (accepts_links row.to_page) pages ≡ true
    → AreLinks pages (links ++ row ∷ [])
AreLinks-snoc pages links row c new source target = record {
  pairs = λ a b. ground (
    arith,
    count_if-snoc (is_link a b) links row,
    c.pairs a b,
    count_if-eq-zero (is_link row.from_page row.to_page) links new,
  );
  sources = λ a b h. ground (arith, any-snoc (is_link a b) links row, c.sources a b);
  targets = λ a b h. ground (arith, any-snoc (is_link a b) links row, c.targets a b);
}

-- So does a link, if its source is there and its target accepts links.
pub get_or_create_link-IsConsistent :
    (a b : ℕ) (db : Db)
    → IsConsistent db
    → any (has_id a) db.pages ≡ true
    → any (accepts_links b) db.pages ≡ true
    → IsConsistent (get_or_create_link a b db).1
unfolding get_or_create_link
get_or_create_link-IsConsistent a b db c source target =
    let row : Link = record { id_link = db.next_link; from_page = a; to_page = b } in
    elim (Bool-cases (any (is_link a b) db.links)) [
      | inl old ↦ rw old c
      | inr new ↦ rw new (record {
        sites = c.sites;
        pages = c.pages;
        links = AreLinks-snoc db.pages db.links row c.links new source target;
        values = c.values;
        scheduled = c.scheduled;
      })
    ]

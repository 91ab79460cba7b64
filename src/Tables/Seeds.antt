-- ===== src/Tables/Seeds.antt =====
-- The insert of a site keeps the database consistent.
use spidercheck.Prelude.{
  ℕ, ◌+◌, ◌≡◌, refl, true, false, List, [], ◌∷◌, ◌++◌, Text, text_eq_iff, any, any-snoc, arith, inl,
  inr, Bool-cases, ◌||◌,
}
use spidercheck.Rows.Laws.{count_if-snoc, count_if-eq-zero}
use spidercheck.Models.{Site, Db}
use spidercheck.Tables.{has_site_id, is_named, has_seed, insert_site}
use spidercheck.Tables.Consistent.{AreSites, IsConsistent}

has_seed_eq :
    (scheme netloc path : Text) (s : Site)
    → has_seed scheme netloc path s ≡ true
    → (scheme ≡ s.scheme) × (netloc ≡ s.netloc) × (path ≡ s.path)
has_seed_eq scheme netloc path s h =
    ground
      (arith, text_eq_iff s.scheme scheme, text_eq_iff s.netloc netloc, text_eq_iff s.path path)

AreSites-snoc :
    (sites : List Site) (next : ℕ) (row : Site)
    → AreSites sites next
    → row.id_site ≡ next
    → any (is_named row.name) sites ≡ false
    → any (has_seed row.scheme row.netloc row.path) sites ≡ false
    → AreSites (sites ++ row ∷ []) (next + 1)
AreSites-snoc sites next row c new name seed = record {
  fresh = λ i h. ground (arith, any-snoc (has_site_id i) sites row, c.fresh i);
  ids = λ i. ground (
    arith,
    count_if-snoc (has_site_id i) sites row,
    c.ids i,
    c.fresh i,
    count_if-eq-zero (has_site_id i) sites,
  );
  names = λ n. ground (
    arith,
    count_if-snoc (is_named n) sites row,
    c.names n,
    text_eq_iff row.name n,
    count_if-eq-zero (is_named row.name) sites name,
  );
  seeds = λ sc ne pa. elim (Bool-cases (has_seed sc ne pa row)) [
    | inl same ↦
        let (es, en, ep) = has_seed_eq sc ne pa row same in
        rw (es, en, ep)
          (ground (
            arith,
            count_if-snoc (has_seed row.scheme row.netloc row.path) sites row,
            count_if-eq-zero (has_seed row.scheme row.netloc row.path) sites seed,
          ))
    | inr other ↦ ground (arith, count_if-snoc (has_seed sc ne pa) sites row, c.seeds sc ne pa)
  ];
}

-- Saving a new site into a consistent database keeps it consistent, whether its constraints let it in
-- or not.
pub insert_site-IsConsistent :
    (s : Site) (db : Db) → IsConsistent db → IsConsistent (insert_site s db).1
unfolding insert_site
insert_site-IsConsistent s db c =
    let row = record s { id_site = db.next_site } in
    elim (Bool-cases
      (any (is_named s.name) db.sites || any (has_seed s.scheme s.netloc s.path) db.sites)) [
        | inl taken ↦ rw taken c
        | inr free ↦ rw free (record {
          sites =
              AreSites-snoc db.sites db.next_site row c.sites refl (ground arith) (ground arith);
          pages = record {
            fresh = c.pages.fresh;
            ids = c.pages.ids;
            urls = c.pages.urls;
            owners =
                λ i h. ground (arith, any-snoc (has_site_id i) db.sites row, c.pages.owners i h);
          };
          links = c.links;
          values = c.values;
          scheduled = c.scheduled;
        })
      ]

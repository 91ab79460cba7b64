-- ===== src/Tables/Values.antt =====
-- The values of pages: what an upsert writes, and that it keeps the database consistent.
use spidercheck.Prelude.{
  ℕ, ◌+◌, ◌≡◌, refl, Bool, true, false, List, [], ◌∷◌, ◌++◌, none, Text, text_eq_iff, any, any-snoc,
  keep, map, arith, inl, inr, Bool-cases, Option-cases,
}
use spidercheck.Seq.{count_if}
use spidercheck.Rows.{first_row}
use spidercheck.Rows.Laws.{count_if-snoc, count_if-eq-zero}
use spidercheck.Models.{Page, Value, Db}
use spidercheck.Tables.{
  has_id, is_value, has_value_id, get_or_create_value, set_text, save_value_text,
}
use spidercheck.Tables.Consistent.{AreValues, IsConsistent}

-- A change of text is seen by no test of the keys.
module _ (i : ℕ) (text : Text) (p : Value → Bool)
    (blind : (v : Value) → p (set_text i text v) ≡ p v) where
  any-map-set_text : (vs : List Value) → any p (map (set_text i text) vs) ≡ any p vs
  unfolding any
  any-map-set_text [] = refl
  any-map-set_text (v ∷ vs) = rw (blind, any-map-set_text vs)

  count_if-map-set_text : (vs : List Value) → count_if (map (set_text i text) vs) p ≡ count_if vs p
  unfolding count_if
  count_if-map-set_text [] = refl
  count_if-map-set_text (v ∷ vs) = rw (blind, count_if-map-set_text vs)

is_value-set_text :
    (i : ℕ) (text : Text) (page : ℕ) (name : Text) (v : Value)
    → is_value page name (set_text i text v) ≡ is_value page name v
unfolding set_text
is_value-set_text i text page name v = ground arith

has_value_id-set_text :
    (i : ℕ) (text : Text) (k : ℕ) (v : Value)
    → has_value_id k (set_text i text v) ≡ has_value_id k v
unfolding set_text
has_value_id-set_text i text k v = ground arith

pub save_value_text-IsConsistent :
    (i : ℕ) (text : Text) (db : Db) → IsConsistent db → IsConsistent (save_value_text i text db).1
unfolding save_value_text
save_value_text-IsConsistent i text db c = record {
  sites = c.sites;
  pages = c.pages;
  links = c.links;
  values = record {
    fresh = λ k h.
        c.values.fresh k
          (rw (any-map-set_text i text (has_value_id k) (has_value_id-set_text i text k)) at h);
    ids = λ k.
        rw (count_if-map-set_text i text (has_value_id k) (has_value_id-set_text i text k))
          (c.values.ids k);
    names = λ k n.
        rw (count_if-map-set_text i text (is_value k n) (is_value-set_text i text k n))
          (c.values.names k n);
    owners = λ k n h.
        c.values.owners k n
          (rw (any-map-set_text i text (is_value k n) (is_value-set_text i text k n)) at h);
  };
  scheduled = c.scheduled;
}

-- No row is found exactly where none passes.
first_row-keep-none :
    (p : Value → Bool) (vs : List Value) → first_row (keep p vs) ≡ none → any p vs ≡ false
unfolding first_row keep any
first_row-keep-none p [] h = refl
first_row-keep-none p (v ∷ vs) h = elim (Bool-cases (p v)) [
  | inl e ↦ ground arith
  | inr e ↦ ground (arith, first_row-keep-none p vs)
]

AreValues-snoc :
    (pages : List Page) (values : List Value) (next : ℕ) (row : Value)
    → AreValues pages values next
    → row.id_value ≡ next
    → any (is_value row.page row.name) values ≡ false
    → any (has_id row.page) pages ≡ true
    → AreValues pages (values ++ row ∷ []) (next + 1)
AreValues-snoc pages values next row c new absent owner = record {
  fresh = λ i h. ground (arith, any-snoc (has_value_id i) values row, c.fresh i);
  ids = λ i. ground (
    arith,
    count_if-snoc (has_value_id i) values row,
    c.ids i,
    c.fresh i,
    count_if-eq-zero (has_value_id i) values,
  );
  names = λ i n. ground (
    arith,
    count_if-snoc (is_value i n) values row,
    c.names i n,
    text_eq_iff row.name n,
    count_if-eq-zero (is_value row.page row.name) values absent,
  );
  owners = λ i n h. ground (arith, any-snoc (is_value i n) values row, c.owners i n);
}

pub get_or_create_value-IsConsistent :
    (page : ℕ) (name : Text) (db : Db)
    → IsConsistent db
    → any (has_id page) db.pages ≡ true
    → IsConsistent (get_or_create_value page name db).1
unfolding get_or_create_value
get_or_create_value-IsConsistent page name db c owner =
    let row : Value = record { id_value = db.next_value; page = page; name = name; value = [] } in
    elim (Option-cases (first_row (keep (is_value page name) db.values))) [
      | inl absent ↦
          rw (absent, get_or_create_value)
            (record {
              sites = c.sites;
              pages = c.pages;
              links = c.links;
              values =
                  AreValues-snoc db.pages db.values db.next_value row c.values refl
                    (first_row-keep-none (is_value page name) db.values absent) owner;
              scheduled = c.scheduled;
            })
      | inr (old, found) ↦ rw (found, get_or_create_value) c
    ]

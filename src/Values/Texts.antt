-- ===== src/Values/Texts.antt =====
-- The table of values of src/spidercheck/models.py as what it stands for, a map from pages and names
-- to texts: `Value.upsert` updates one entry, and `Page.get_value` reads one.
use spidercheck.Prelude.{
  ℕ, ◌≡◌, refl, sym, ◌∙◌, fun_ext, Bool, true, false, ◌&&◌, List, [], ◌∷◌, Option, none, some, Text,
  text_eq, text_eq_iff, text_eq_self, arith, any, keep, ◌==◌, if◌then◌else◌, inl, inr, Bool-cases,
  Option-cases,
}
use spidercheck.Rows.{first_row}
use spidercheck.Rows.Among.{keep-Among, first_row-Among, Among-excludes}
use spidercheck.Rows.Kept.{some-first_row}
use spidercheck.Models.{Page, Value, Db}
use spidercheck.Tables.{has_id, is_value}
use spidercheck.Tables.Consistent.{IsConsistent}
use spidercheck.Tables.Stored.{value_is}
use spidercheck.Values.{upsert, value_or, get_value}
use spidercheck.Values.Upsert.{upsert_lem}

-- The abstract view: the text of a page under a name.
abbrev pub Texts : Type 0
Texts = ℕ → Text → Option Text

text_in : Option Value → Option Text
text_in none = none
text_in (some v) = some v.value

unfoldable pub texts_of : Db → Texts
unfolding text_in
texts_of db page name = text_in (first_row (keep (is_value page name) db.values))

abbrev pub put : ℕ → Text → Text → Texts → Texts
put page name text m i n = if page == i && text_eq name n then some text else m i n

abbrev pub or_text : Option Text → Text → Text
or_text none default = default
or_text (some text) default = text

-- Two optional texts are one if the same texts are in them.
abbrev pub holds : Option Text → Text → Bool
holds none t = false
holds (some s) t = text_eq s t

pub holds-ext : (o o' : Option Text) → ((t : Text) → holds o t ≡ holds o' t) → o ≡ o'
holds-ext none none h = refl
holds-ext none (some s) h = let e = h s in let f = text_eq_self s in cc
holds-ext (some s) none h = let e = h s in let f = text_eq_self s in cc
holds-ext (some s) (some s') h =
    let e : s ≡ s' = ground (arith, h s', text_eq_self s', text_eq_iff s s') in rw e refl

-- A value with a text is a value.
pub value_is-is_value :
    (i : ℕ) (name text : Text) (vs : List Value)
    → any (is_value i name) vs ≡ false
    → any (value_is i name text) vs ≡ false
unfolding any
value_is-is_value i name text [] h = refl
value_is-is_value i name text (v ∷ vs) h = ground (arith, value_is-is_value i name text vs)

none-first_row :
    (q : Value → Bool) (vs : List Value) → first_row (keep q vs) ≡ none → any q vs ≡ false
none-first_row q vs h = elim (Bool-cases (any q vs)) [
  | inr absent ↦ absent
  | inl here ↦ let (v, found) = some-first_row q vs here in cc
]

-- The view holds a text exactly where a row has it.
pub holds-texts_of :
    (db : Db) (i : ℕ) (n t : Text)
    → IsConsistent db
    → holds (texts_of db i n) t ≡ any (value_is i n t) db.values
unfolding texts_of text_in
holds-texts_of db i n t c = elim (Option-cases (first_row (keep (is_value i n) db.values))) [
  | inl absent ↦ rw (absent, value_is-is_value i n t db.values (none-first_row _ _ absent)) refl
  | inr (v, found) ↦
      let (row, hit) = keep-Among (is_value i n) db.values v (first_row-Among _ v found) in
      elim (Bool-cases (text_eq v.value t)) [
        | inl same ↦ rw (found, same, row (value_is i n t) (ground arith)) refl
        | inr other ↦
            let bare =
              Among-excludes (is_value i n) (λ w. text_eq w.value t) db.values v
                (c.values.names i n) row hit other in
            rw (found, other, bare) refl
      ]
]

pub get_value-or_text :
    (p : Page) (n default : Text) (db : Db)
    → get_value p n default db ≡ or_text (texts_of db p.id_page n) default
unfolding get_value value_or texts_of text_in
get_value-or_text p n default db =
    elim (Option-cases (first_row (keep (is_value p.id_page n) db.values))) [
      | inl absent ↦ rw absent refl
      | inr (v, found) ↦ rw found refl
    ]

-- For a page of a consistent database, `Value.upsert` does to the table what setting one entry
-- does to the map from pages and names to texts; and whatever page, name and default `get_value` is
-- called with afterwards, it gives the entry of the updated map, or the default where there is none.
pub upsert-refines :
    (page : ℕ) (name text : Text) (db : Db)
    → IsConsistent db
    → any (has_id page) db.pages ≡ true
    → (texts_of (upsert page name text db).1 ≡ put page name text (texts_of db))
      × ((p : Page) (n default : Text)
          → get_value p n default (upsert page name text db).1
            ≡ or_text (put page name text (texts_of db) p.id_page n) default)
upsert-refines page name text db c owner =
    let (v, after, run, kept, pages, links, sites, seen) = upsert_lem page name text db c owner in
    let refined : texts_of (upsert page name text db).1 ≡ put page name text (texts_of db) =
      fun_ext λ i. fun_ext λ n. holds-ext _ _ λ t. rw run (
        holds-texts_of after i n t kept
        ∙ seen i n t
        ∙ elim (Bool-cases (page == i && text_eq name n)) [
          | inl same ↦ rw same refl
          | inr other ↦ rw other (sym (holds-texts_of db i n t c))
        ]) in
    (refined, λ p n default. get_value-or_text p n default _ ∙ rw refined refl)

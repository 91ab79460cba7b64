-- ===== src/Values/Keys.antt =====
-- Natural keys and string forms of values, the addresses of scheduled pages, and
-- `Site.get_excluded_subpaths`, in src/spidercheck/models.py.
use spidercheck.Prelude.{
  ℕ, ◌≡◌, refl, sym, ap, Bool, true, ◌&&◌, List, Option, none, some, Text, codes, ◌++◌, text_eq,
  text_eq_iff, text_eq_self, arith, keep, ◌==◌, ==_self,
}
use spidercheck.Results.{Outcome, returned, raised, chain, attribute_error, does_not_exist}
use spidercheck.Rows.{first_row}
use spidercheck.Rows.Among.{Among, Among-unique, keep-Among, first_row-Among}
use spidercheck.Rows.Kept.{some-first_row}
use spidercheck.Models.{Site, Value, ScheduledPage, Db}
use spidercheck.Tables.{is_value}
use spidercheck.Tables.Consistent.{IsConsistent}
use spidercheck.Urls.{UrlLib}
use spidercheck.Pages.{load_page, site_of, get_relative_url, get_full_url}

-- The page of the key is its primary key.
abbrev pub natural_key : Value → ℕ × Text
natural_key v = (v.page, v.name)

found_value : Option Value → Outcome Value
found_value none = raised does_not_exist
found_value (some v) = returned v

-- `self.get(page=page, name=name)`
unfoldable pub get_by_natural_key : ℕ × Text → Db → Outcome Value
unfolding found_value
get_by_natural_key (page, name) db = found_value (first_row (keep (is_value page name) db.values))

-- `Value.__str__`
abbrev pub value_str : Value → Text
value_str v = v.name ++ (codes "=" ++ v.value)

-- `Site.__str__`
abbrev pub site_str : Site → Text
site_str s = s.name

-- No model declares the relation `excludes`, so a site has no such attribute.
unfoldable pub get_excluded_subpaths : Site → Outcome (List Text)
get_excluded_subpaths s = raised attribute_error

-- A foreign key that is read.
related : {A : Type 0} → Option A → Outcome A
related none = raised does_not_exist
related (some a) = returned a

module _ (urls : UrlLib) where
  -- `ScheduledPage.get_relative_url`
  unfoldable pub scheduled_relative_url : ScheduledPage → Db → Outcome Text
  unfolding related
  scheduled_relative_url row db =
      chain (related (load_page row.page db))
        λ p. chain (related (site_of p db)) λ s. get_relative_url urls s p

  -- `ScheduledPage.get_full_url`
  unfoldable pub scheduled_full_url : ScheduledPage → Db → Outcome Text
  unfolding related
  scheduled_full_url row db =
      chain (related (load_page row.page db))
        λ p. chain (related (site_of p db)) λ s. get_full_url urls s p

-- Whether a row has all columns of another.
abbrev same_columns : Value → Value → Bool
same_columns v w =
    v.id_value == w.id_value
    && (v.page == w.page && (text_eq v.name w.name && text_eq v.value w.value))

same_columns-eq : (v w : Value) → same_columns v w ≡ true → v ≡ w
same_columns-eq v w h =
    let i : v.id_value ≡ w.id_value = ground arith in
    let p : v.page ≡ w.page = ground arith in
    let n : v.name ≡ w.name = ground (arith, text_eq_iff v.name w.name) in
    let t : v.value ≡ w.value = ground (arith, text_eq_iff v.value w.value) in rw (i, p, n, t) refl

-- In a consistent database, each row of the table of values is what its natural key gives.
pub get_by_natural_key-natural_key :
    (v : Value) (db : Db)
    → IsConsistent db
    → Among db.values v
    → get_by_natural_key (natural_key v) db ≡ returned v
unfolding get_by_natural_key
get_by_natural_key-natural_key v db c row =
    let own : is_value v.page v.name v ≡ true =
      ground (arith, ==_self v.page, text_eq_self v.name) in
    let (w, found) =
      some-first_row (is_value v.page v.name) db.values (row (is_value v.page v.name) own) in
    let (row', hit) = keep-Among (is_value v.page v.name) db.values w (first_row-Among _ w found) in
    let same : same_columns v w ≡ true =
      Among-unique (is_value v.page v.name) db.values v w (c.values.names v.page v.name) row row'
        own hit (same_columns v)
        (ground
          (arith, ==_self v.id_value, ==_self v.page, text_eq_self v.name, text_eq_self v.value)) in
    rw found (ap returned (sym (same_columns-eq v w same)))

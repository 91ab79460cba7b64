-- ===== src/Sites/Counts.antt =====
-- `Site.count_values`, `Site.progress` and `Site.get_all_sites` of src/spidercheck/models.py.
use spidercheck.Prelude.{
  ℕ, ◌+◌, ◌≡◌, refl, ◌∙◌, ap, Bool, true, false, ◌&&◌, List, [], ◌∷◌, Option, none, some, Text,
  text_eq, text_eq_iff, arith, any, keep, map, length, ltb, ◌==◌, if◌then◌else◌, inl, inr,
  Bool-cases,
}
use spidercheck.Seq.{count_if}
use spidercheck.Rows.{order_by}
use spidercheck.Models.{Site, Value, Db}
use spidercheck.Tables.{in_site}
use spidercheck.Sites.{pages_of, checked}

-- The order of names, by code points.
unfoldable pub text_leb : Text → Text → Bool
text_leb [] t = true
text_leb (a ∷ s) [] = false
text_leb (a ∷ s) (b ∷ t) = let rest = text_leb s t in if a == b then rest else ltb a b

-- `cls.objects.all()`, in the order of the model.
unfoldable pub get_all_sites : Db → List Site
get_all_sites db = order_by (λ s t. text_leb s.name t.name) db.sites

-- The checked pages and all pages, whose quotient `progress` rounds, and 0 where there is no page.
pub record Share : Type 0 where
  pub part : ℕ
  pub whole : ℕ

unfoldable pub progress : Site → Db → Share
progress s db = record {
  part = length (keep checked (pages_of s db));
  whole = length (pages_of s db);
}

-- `GROUP BY value` with `COUNT(*)`. In which order the groups come is left to the database.
abbrev pub Counted : Type 0
Counted = List (Text × ℕ)

count_up : Text → Counted → Counted
count_up x [] = (x, 1) ∷ []
count_up x ((y, n) ∷ counted) =
    if text_eq y x then (y, n + 1) ∷ counted else (y, n) ∷ count_up x counted

tally : List Text → Counted
unfolding count_up
tally [] = []
tally (x ∷ xs) = count_up x (tally xs)

-- `filter(name=name).filter(page__site=self)`
abbrev pub counts : Site → Text → Db → Value → Bool
counts s name db v =
    text_eq v.name name && any (λ p. p.id_page == v.page && in_site s.id_site p) db.pages

unfoldable pub count_values : Site → Text → Db → Counted
unfolding tally
count_values s name db = tally (map (λ v. v.value) (keep (counts s name db) db.values))

-- `d.get(text)`
pub number_of : Text → Counted → Option ℕ
number_of t [] = none
number_of t ((y, n) ∷ counted) = if text_eq y t then some n else number_of t counted

-- `sum(d.values())`
pub total : Counted → ℕ
total [] = 0
total ((y, n) ∷ counted) = n + total counted

abbrev pub unless_zero : ℕ → Option ℕ
unless_zero n = if n == 0 then none else some n

abbrev or_zero : Option ℕ → ℕ
or_zero none = 0
or_zero (some n) = n

number_of-count_up :
    (x : Text) (counted : Counted) (t : Text)
    → number_of t (count_up x counted)
      ≡ (if text_eq x t then some (or_zero (number_of t counted) + 1) else number_of t counted)
unfolding number_of count_up
number_of-count_up x [] t = refl
number_of-count_up x ((y, n) ∷ counted) t = elim (Bool-cases (text_eq y x)) [
  | inl own ↦
      let e : y ≡ x = ground (arith, text_eq_iff y x) in
      rw (own, e)
        (elim (Bool-cases (text_eq x t)) [ inl hit ↦ rw hit refl | inr miss ↦ rw miss refl ])
  | inr other ↦ elim (Bool-cases (text_eq x t)) [
    | inl hit ↦
        let e : x ≡ t = ground (arith, text_eq_iff x t) in
        let miss : text_eq y t ≡ false = rw e at other in
        rw (other, number_of-count_up x counted t, hit, miss) refl
    | inr miss ↦ rw (other, number_of-count_up x counted t, miss) refl
  ]
]

total-count_up : (x : Text) (counted : Counted) → total (count_up x counted) ≡ total counted + 1
unfolding total count_up
total-count_up x [] = refl
total-count_up x ((y, n) ∷ counted) = ground (arith, total-count_up x counted)

number_of-tally :
    (xs : List Text) (t : Text)
    → number_of t (tally xs) ≡ unless_zero (count_if xs (λ x. text_eq x t))
unfolding tally number_of count_if
number_of-tally [] t = ground arith
number_of-tally (x ∷ xs) t = elim (Bool-cases (text_eq x t)) [
  | inl hit ↦ rw (number_of-count_up x (tally xs) t, hit, number_of-tally xs t) (ground arith)
  | inr miss ↦ rw (number_of-count_up x (tally xs) t, miss, number_of-tally xs t) (ground arith)
]

total-tally : (xs : List Text) → total (tally xs) ≡ length xs
unfolding tally total
total-tally [] = refl
total-tally (x ∷ xs) = omega (arith, total-count_up x (tally xs), total-tally xs)

count_if-map :
    (f : Value → Text) (p : Text → Bool) (q : Value → Bool) (vs : List Value)
    → count_if (map f (keep q vs)) p ≡ count_if vs (λ v. q v && p (f v))
unfolding count_if keep
count_if-map f p q [] = refl
count_if-map f p q (v ∷ vs) = elim (Bool-cases (q v)) [
  | inl e ↦ rw (e, count_if-map f p q vs) refl
  | inr e ↦ rw (e, count_if-map f p q vs) (omega arith)
]

length-map-keep :
    (f : Value → Text) (q : Value → Bool) (vs : List Value)
    → length (map f (keep q vs)) ≡ count_if vs q
unfolding count_if keep
length-map-keep f q [] = refl
length-map-keep f q (v ∷ vs) = ground (arith, length-map-keep f q vs)

-- `count_values` gives for each text the number of values of the name on pages of the site that
-- have this text, and no entry where there is none; its numbers add up to the number of all values
-- of the name on pages of the site.
pub count_values_lem :
    (s : Site) (name : Text) (db : Db)
    → ((t : Text)
        → number_of t (count_values s name db)
          ≡ unless_zero (count_if db.values (λ v. counts s name db v && text_eq v.value t)))
      × (total (count_values s name db) ≡ count_if db.values (counts s name db))
unfolding count_values
count_values_lem s name db =
    let q = counts s name db in
    let texts = map (λ v. v.value) (keep q db.values) in
    (
      λ t.
          number_of-tally texts t
          ∙ ap unless_zero (count_if-map (λ v. v.value) (λ x. text_eq x t) q db.values),
      total-tally texts ∙ length-map-keep (λ v. v.value) q db.values,
    )

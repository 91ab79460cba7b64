-- ===== src/Sites/Search.antt =====
-- `Site.search` of src/spidercheck/models.py, and `find_urls_by_pattern` of src/spidercheck/core.py. A regular
-- expression of the user is what `re.compile` makes of it: a test of texts, or an exception.
use spidercheck.Prelude.{
  ℕ, ◌≡◌, refl, sym, ap, ◌∙◌, ◌↔◌, Bool, true, false, ◌&&◌, ◌||◌, List, [], ◌∷◌, ◌++◌, Option, none,
  some, Text, arith, keep, leb, if◌then◌else◌, inl, inr, Bool-cases,
}
use spidercheck.Prelude.Int.{leb_ℤ, leb_ℤ_total, leb_ℤ_trans}
use spidercheck.Prelude.Chars.{lower_char, lower, starts_with_ci}
use spidercheck.Results.{Exc, Outcome, returned, raised}
use spidercheck.Seq.{count_if}
use spidercheck.Rows.{order_by}
use spidercheck.Rows.Laws.{count_if-keep}
use spidercheck.Rows.Order.{count_if-order_by, IsOrder}
use spidercheck.Rows.Sorted.{IsSorted, order_by-IsSorted}
use spidercheck.Models.{Site, Page, Db}
use spidercheck.Tables.{in_site}
use spidercheck.Urls.{UrlLib}
use spidercheck.Sites.{pages_of}
use spidercheck.Pages.{get_relative_url}

-- `subpath__icontains=query`
unfoldable pub icontains : Text → Text → Bool
unfolding starts_with_ci
icontains query [] = starts_with_ci query []
icontains query (c ∷ s) = starts_with_ci query (c ∷ s) || icontains query s

-- `order_by('-status', 'pk')`
abbrev pub by_status_desc : Page → Page → Bool
by_status_desc p q =
    if leb_ℤ p.status q.status then leb_ℤ q.status p.status && leb p.id_page q.id_page else true

-- What a generator of pages yields, and the exception that ends it, if one does.
abbrev pub Found : Type 0
Found = List Page × Option Exc

found_next : Bool → Page → Found → Found
found_next true p later = (p ∷ later.0, later.1)
found_next false p later = later

module _ (urls : UrlLib) (compile : Text → Outcome (Text → Bool)) where
  matching : (Text → Bool) → Site → List Page → Found
  unfolding found_next
  matching test s [] = ([], none)
  matching test s (p ∷ pages) = elim (get_relative_url urls s p) [
    | returned url ↦ found_next (test url) p (matching test s pages)
    | raised e ↦ ([], some e)
  ]

  search_regex : Outcome (Text → Bool) → Site → Db → Found
  unfolding matching
  search_regex (returned test) s db = matching test s (order_by by_status_desc (pages_of s db))
  search_regex (raised e) s db = ([], some e)

  unfoldable pub search : Site → Text → Bool → Db → Found
  unfolding search_regex
  search s query use_regex db =
      if use_regex
      then search_regex (compile query) s db
      else (order_by by_status_desc (keep (λ p. icontains query p.subpath) (pages_of s db)), none)

  unfoldable pub find_urls_by_pattern : Site → Text → Bool → Db → Found
  find_urls_by_pattern s pattern' use_regex db = search s pattern' use_regex db

-- Texts that are equal have equal heads and tails.
head_of : Text → ℕ
head_of [] = 0
head_of (c ∷ s) = c

tail_of : Text → Text
tail_of [] = []
tail_of (c ∷ s) = s

starts_with_ci-append : (q t b : Text) → lower t ≡ lower q ++ b → starts_with_ci q t ≡ true
unfolding starts_with_ci lower head_of tail_of
starts_with_ci-append [] t b h = refl
starts_with_ci-append (c ∷ q) [] b h = cc
starts_with_ci-append (c ∷ q) (d ∷ t) b h =
    let f : lower_char c ≡ lower_char d = sym (ap head_of h) in
    rw (starts_with_ci-append q t b (ap tail_of h)) (ground arith)

starts_with_ci-split :
    (q t : Text) → starts_with_ci q t ≡ true → (b : Text) × (lower t ≡ lower q ++ b)
unfolding starts_with_ci lower
starts_with_ci-split [] t h = (lower t, refl)
starts_with_ci-split (c ∷ q) [] h = cc
starts_with_ci-split (c ∷ q) (d ∷ t) h =
    let (b, e) = starts_with_ci-split q t (ground arith) in
    let f : lower_char c ≡ lower_char d = ground arith in
    (b, ap (λ x. x ∷ lower t) (sym f) ∙ ap (◌∷◌ (lower_char c)) e)

icontains-split :
    (q s : Text) → icontains q s ≡ true → (a b : Text) × (lower s ≡ a ++ (lower q ++ b))
unfolding icontains lower
icontains-split q [] h = let (b, e) = starts_with_ci-split q [] h in ([], b, e)
icontains-split q (c ∷ s) h = elim (Bool-cases (starts_with_ci q (c ∷ s))) [
  | inl here ↦ let (b, e) = starts_with_ci-split q (c ∷ s) here in ([], b, e)
  | inr later ↦
      let (a, b, e) = icontains-split q s (ground arith) in
      (lower_char c ∷ a, b, ap (◌∷◌ (lower_char c)) e)
]

icontains-append : (q s a b : Text) → lower s ≡ a ++ (lower q ++ b) → icontains q s ≡ true
unfolding icontains lower tail_of
icontains-append q [] [] b h = starts_with_ci-append q [] b h
icontains-append q [] (x ∷ a) b h = cc
icontains-append q (c ∷ s) [] b h = rw (starts_with_ci-append q (c ∷ s) b h) refl
icontains-append q (c ∷ s) (x ∷ a) b h = ground (arith, icontains-append q s a b (ap tail_of h))

-- `icontains` holds exactly if the query, in lower case, is a part of the text in lower case.
icontains_iff :
    (q s : Text) → (icontains q s ≡ true) ↔ ((a b : Text) × (lower s ≡ a ++ (lower q ++ b)))
icontains_iff q s = (icontains-split q s, λ (a, b, e). icontains-append q s a b e)

by_status_desc-IsOrder : IsOrder by_status_desc
by_status_desc-IsOrder = record {
  total = λ x y h. ground (arith, leb_ℤ_total x.status y.status);
  trans = λ x y z h k. ground (
    arith,
    leb_ℤ_trans x.status y.status z.status,
    leb_ℤ_trans x.status z.status y.status,
    leb_ℤ_trans y.status x.status z.status,
    leb_ℤ_trans y.status z.status x.status,
    leb_ℤ_trans z.status x.status y.status,
    leb_ℤ_trans z.status y.status x.status,
    leb_ℤ_total x.status y.status,
    leb_ℤ_total y.status z.status,
    leb_ℤ_total x.status z.status,
  );
}

-- Whatever the site and the query, the search without a regular expression ends without an
-- exception and yields, each once, exactly the pages of the site whose subpath has the query as a
-- part, upper and lower case alike, those with the largest status first and those of one status by
-- their key.
pub search_lem :
    (urls : UrlLib) (compile : Text → Outcome (Text → Bool)) (s : Site) (query : Text) (db : Db)
    → ((search urls compile s query false db).1 ≡ none)
      × ((t : Page → Bool)
          → count_if (search urls compile s query false db).0 t
            ≡ count_if db.pages (λ p. in_site s.id_site p && (icontains query p.subpath && t p)))
      × IsSorted by_status_desc (search urls compile s query false db).0
      × ((text : Text)
          → (icontains query text ≡ true) ↔ ((a b : Text) × (lower text ≡ a ++ (lower query ++ b))))
unfolding search
search_lem urls compile s query db = (
  refl,
  λ t.
      count_if-order_by by_status_desc t _
      ∙ count_if-keep t (λ p. icontains query p.subpath) (pages_of s db)
      ∙ count_if-keep (λ p. icontains query p.subpath && t p) (in_site s.id_site) db.pages,
  order_by-IsSorted by_status_desc by_status_desc-IsOrder _,
  icontains_iff query,
)

-- ===== src/Plugins/Documents.antt =====
-- The plugins src/spidercheck/plugins/get_title.py and src/spidercheck/plugins/index_site.py. What
-- BeautifulSoup makes of a text is an argument, and so is the text that HTMLParser leaves of one; the
-- documents that are given to the search adapter are a list.
use spidercheck.Prelude.{
  ℕ, Bool, true, ◌&&◌, List, [], ◌∷◌, ◌++◌, Option, none, some, Text, codes, text_eq, map, ◌==◌,
  if◌then◌else◌,
}
use spidercheck.Prelude.Int.{ℤ, pos}
use spidercheck.Prelude.Chars.{is_digit, is_space, lower, strip}
use spidercheck.Prelude.Numerals.{int_of}
use spidercheck.Results.{Outcome, returned, raised, chain, attribute_error}
use spidercheck.Seq.{first}
use spidercheck.Models.{Site, Page}
use spidercheck.Urls.{UrlLib}
use spidercheck.Pages.{get_relative_url}
use spidercheck.Core.{Headers, content_is_html}
use spidercheck.Plugins.{Dict, gave, Plugin}

-- A `meta` tag with its attributes `name` and `content`.
pub record Meta : Type 0 where
  pub name : Option Text
  pub content : Option Text

-- A part of a document: its text, and the texts of its headings of each level.
pub record Part : Type 0 where
  pub text : Text
  pub headings : ℕ → List Text

-- The texts of the `title` tags, the `meta` tags, and the first `main` and `body`.
pub record Soup : Type 0 where
  pub titles : List Text
  pub metas : List Meta
  pub main : Option Part
  pub body : Option Part

unfoldable pub title_entry : Option Text → Dict
unfolding strip
title_entry none = []
title_entry (some t) = (codes "title", strip t) ∷ []

-- `process` of get_title.py.
unfoldable pub get_title_process : (Text → Soup) → Plugin
unfolding title_entry first
get_title_process soup_of page headers body =
    gave (title_entry (first (soup_of body).titles (λ t. true) none))

-- `text.split()`; `word` is the word so far, backwards.
abbrev pub put_word : Text → List Text → List Text
put_word [] words = words
put_word (c ∷ word) words = (c ∷ word) ∷ words

unfoldable pub split_words : Text → Text × List Text
unfolding is_space
split_words [] = ([], [])
split_words (c ∷ s) =
    let r = split_words s in if is_space c then ([], put_word r.0 r.1) else (c ∷ r.0, r.1)

unfoldable pub words_of : Text → List Text
unfolding split_words
words_of s = let r = split_words s in put_word r.0 r.1

-- `' '.join(words)`
unfoldable pub join_words : List Text → Text
join_words [] = []
join_words (w ∷ []) = w
join_words (w ∷ v ∷ words) = w ++ (b' ' ∷ join_words (v ∷ words))

-- `strip_tags`, after `feed`.
unfoldable pub strip_tags : (Text → Text) → Text → Text
unfolding words_of join_words
strip_tags data_of html = join_words (words_of (data_of html))

-- `value.split(',')`
split_commas : Text → List Text
split_commas [] = [] ∷ []
split_commas (c ∷ s) =
    let rest = split_commas s in
    if c == b',' then [] ∷ rest else elim rest [ [] ↦ (c ∷ []) ∷ [] | t ∷ ts ↦ (c ∷ t) ∷ ts ]

pub record Tags : Type 0 where
  pub keywords : List Text
  pub area : Text
  pub version : ℤ

abbrev pub no_tags : Tags
no_tags = record { keywords = []; area = []; version = pos 0 }

abbrev or_nothing : Option Text → Text
or_nothing none = []
or_nothing (some t) = t

all_digit : Text → Bool
unfolding is_digit
all_digit [] = true
all_digit (c ∷ s) = is_digit c && all_digit s

with_version : Tags → Text → Tags
unfolding all_digit int_of
with_version tags [] = tags
with_version tags (c ∷ value) =
    if all_digit (c ∷ value)
    then elim (int_of (c ∷ value)) [ none ↦ tags | some n ↦ record tags { version = n } ]
    else tags

with_keywords : Tags → Text → Tags
unfolding split_commas strip lower
with_keywords tags [] = tags
with_keywords tags (c ∷ value) = record tags {
  keywords = map (λ k. lower (strip k)) (split_commas (c ∷ value));
}

-- One round of the loop over the `meta` tags.
unfoldable pub read_meta : Tags → Meta → Tags
unfolding with_version with_keywords
read_meta tags m =
    if text_eq (or_nothing m.name) (codes "area")
    then record tags { area = or_nothing m.content }
    else if text_eq (or_nothing m.name) (codes "version")
    then with_version tags (or_nothing m.content)
    else if text_eq (or_nothing m.name) (codes "keywords")
    then with_keywords tags (or_nothing m.content)
    else tags

unfoldable pub read_metas : Tags → List Meta → Tags
unfolding read_meta
read_metas tags [] = tags
read_metas tags (m ∷ metas) = read_metas (read_meta tags m) metas

-- The document of a page; `headings` are the lists `h1` to `h6`.
pub record Info : Type 0 where
  pub page_id : ℕ
  pub url : Text
  pub title : Text
  pub tags : Tags
  pub headings : List (List Text)
  pub body : Text

-- The first title, and `main` or else `body`: `None` has no `text`.
unfoldable pub text_or_raise : List Text → Outcome Text
text_or_raise [] = raised attribute_error
text_or_raise (t ∷ titles) = returned t

unfoldable pub part_or : Option Part → Option Part → Outcome Part
part_or (some part) other = returned part
part_or none none = raised attribute_error
part_or none (some part) = returned part

unfoldable pub levels : Part → List (List Text)
unfolding strip
levels part = map (λ level. map strip (part.headings level)) (1 ∷ 2 ∷ 3 ∷ 4 ∷ 5 ∷ 6 ∷ [])

unfoldable pub get_info : UrlLib → (Text → Text) → Site → Page → Soup → Outcome Info
unfolding text_or_raise part_or levels read_metas strip_tags
get_info urls data_of s page soup = chain (text_or_raise soup.titles) λ title.
    chain (part_or soup.main soup.body) λ part. chain (get_relative_url urls s page) λ url.
      returned (record {
        page_id = page.id_page;
        url = url;
        title = title;
        tags = read_metas no_tags soup.metas;
        headings = levels part;
        body = strip_tags data_of part.text;
      })

-- `process` of index_site.py: the documents that go to the index, and what the plugin gives.
unfoldable pub index_site_process :
    UrlLib → (Text → Text) → (Text → Soup) → Site → Page → Headers → Text → List Info × Outcome Dict
index_site_process urls data_of soup_of s page headers body =
    if content_is_html headers
    then elim (get_info urls data_of s page (soup_of body)) [
      | returned info ↦ (info ∷ [], returned [])
      | raised e ↦ ([], raised e)
    ]
    else ([], returned [])

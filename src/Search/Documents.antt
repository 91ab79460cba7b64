-- ===== src/Search/Documents.antt =====
-- The document that src/spidercheck/plugins/index_site.py makes of a page, against the schema of
-- src/spidercheck/search.py.
use spidercheck.Prelude.{
  ℕ, ◌^◌, ◌≡◌, refl, Bool, true, false, ◌&&◌, List, [], ◌∷◌, ◌++◌, Text, codes, text_eq, ltb,
}
use spidercheck.Prelude.Int.{ℤ, pos, negsuc}
use spidercheck.Results.{returned, chain-eq-returned}
use spidercheck.Models.{Site, Page}
use spidercheck.Urls.{UrlLib}
use spidercheck.Pages.{get_relative_url}
use spidercheck.Plugins.Documents.{Info, Part, Soup, levels, text_or_raise, part_or, get_info}
use spidercheck.Search.{FieldType, string, strings, int32, int64, Field, index_schema}

-- A value of a document: a text, a list of texts, a number.
pub data FieldValue : Type 0 where
  text : Text → FieldValue
  texts : List Text → FieldValue
  number : ℤ → FieldValue

abbrev pub Document : Type 0
Document = List (Text × FieldValue)

abbrev heading_names : List Text
heading_names = codes "h1" ∷ codes "h2" ∷ codes "h3" ∷ codes "h4" ∷ codes "h5" ∷ codes "h6" ∷ []

headed : List Text → List (List Text) → Document
headed (n ∷ names) (hs ∷ headings) = (n, texts hs) ∷ headed names headings
headed [] headings = []
headed (n ∷ names) [] = []

-- The dictionary `result` of `_get_info`.
unfoldable pub document : Info → Document
unfolding headed
document info =
    (codes "id", text info.url)
      ∷ (codes "page_id", number (pos info.page_id))
      ∷ (codes "url", text info.url)
      ∷ (codes "title", text info.title)
      ∷ (codes "keywords", texts info.tags.keywords)
      ∷ (codes "area", text info.tags.area)
      ∷ headed heading_names info.headings
    ++ ((codes "body", text info.body) ∷ (codes "version", number info.tags.version) ∷ [])

-- Whether a number is at most 2 ^ bits - 1 and at least -(2 ^ bits).
unfoldable pub fits : ℕ → ℤ → Bool
fits bits (pos n) = ltb n (2 ^ bits)
fits bits (negsuc n) = ltb n (2 ^ bits)

-- Whether a field of the type takes the value.
unfoldable pub accepts : FieldType → FieldValue → Bool
unfolding fits
accepts string (text t) = true
accepts strings (texts ts) = true
accepts int32 (number n) = fits 31 n
accepts int64 (number n) = fits 63 n
accepts _ _ = false

-- Whether a document has the fields of a schema and no others, with values that they take.
unfoldable pub matches : List Field → Document → Bool
unfolding accepts text_eq
matches [] [] = true
matches (f ∷ fields) ((n, v) ∷ d) = text_eq f.name n && (accepts f.type v && matches fields d)
matches [] (e ∷ d) = false
matches (f ∷ fields) [] = false

module _ (urls : UrlLib) (data_of : Text → Text) (s : Site) (page : Page) (soup : Soup) where
  get_info-levels :
      (info : Info)
      → get_info urls data_of s page soup ≡ returned info
      → (part : Part) × (info.headings ≡ levels part) × (info.page_id ≡ page.id_page)
  unfolding get_info
  get_info-levels info h =
      let (title, titled, h1) = chain-eq-returned (text_or_raise soup.titles) _ h in
      let (part, held, h2) = chain-eq-returned (part_or soup.main soup.body) _ h1 in
      let (url, addressed, made) = chain-eq-returned (get_relative_url urls s page) _ h2 in
      (part, cc, cc)

  -- The document that `_get_info` makes of a page has the fields of the index, in their order and with values of
  -- their types, if the key of the page takes at most 64 bits and the version that the page tells at most 32.
  pub get_info-matches :
      (info : Info)
      → get_info urls data_of s page soup ≡ returned info
      → fits 63 (pos page.id_page) ≡ true
      → fits 31 info.tags.version ≡ true
      → matches index_schema.fields (document info) ≡ true
  unfolding matches document levels headed
  get_info-matches info h key version =
      let (part, e, f) = get_info-levels info h in rw (e, f, key, version) refl

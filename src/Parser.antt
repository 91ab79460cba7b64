-- ===== src/Parser.antt =====
-- The link extractor, parser.py: which addresses the tags of a page name. Python's `HTMLParser`
-- finds the tags; the extractor is the handler that it calls for each start tag, with the
-- attributes as pairs of a name and, where there is one, a value.
pub mod Extracts
use spidercheck.Prelude.{
  ℕ, Bool, true, false, List, [], ◌∷◌, ◌++◌, Option, none, some, Text, codes, text_eq, any, ◌==◌,
  if◌then◌else◌,
}
use spidercheck.Prelude.Chars.{starts_with_ci}

abbrev pub exclude_paths : List Text
exclude_paths = codes "/api/" ∷ codes "/api2/" ∷ codes "/__debug__/" ∷ []

none_matches : List Text → Text → Bool
none_matches [] url = true
none_matches (path ∷ rest) url = if starts_with_ci path url then false else none_matches rest url

unfoldable pub is_valid_url : Text → Bool
unfolding none_matches
is_valid_url url = none_matches exclude_paths url

abbrev pub Attrs : Type 0
Attrs = List (Text × Option Text)

pub record Tag : Type 0 where
  pub name : Text
  pub attrs : Attrs

-- The sets of a `LinkExtractor`, each without repetition.
pub record LinkExtractor : Type 0 where
  pub links : List Text
  pub images : List Text
  pub styles : List Text
  pub scripts : List Text

abbrev pub init : LinkExtractor
init = record { links = []; images = []; styles = []; scripts = [] }

-- `set.add`
add : Text → List Text → List Text
add url urls = if any (text_eq url) urls then urls else urls ++ url ∷ []

-- `dict(attrs).get(key)`, where a name that is repeated counts the last time; an empty value and
-- `None` are both false in `if url := …`.
truthy : Option Text → Option Text
truthy none = none
truthy (some []) = none
truthy (some (c ∷ s)) = some (c ∷ s)

last_of : Text → Attrs → Option Text → Option Text
last_of key [] found = found
last_of key ((name, value) ∷ attrs) found =
    last_of key attrs (if text_eq name key then value else found)

unfoldable pub get_attr : Text → Attrs → Option Text
unfolding last_of truthy
get_attr key attrs = truthy (last_of key attrs none)

add_some : Option Text → List Text → List Text
unfolding add
add_some none urls = urls
add_some (some url) urls = add url urls

-- Only links are held against the excluded paths.
add_valid : Option Text → List Text → List Text
unfolding add
add_valid none urls = urls
add_valid (some url) urls = if is_valid_url url then add url urls else urls

unfoldable pub handle_starttag : Tag → LinkExtractor → LinkExtractor
unfolding add_some add_valid
handle_starttag tag e =
    if text_eq tag.name (codes "a")
    then record e { links = add_valid (get_attr (codes "href") tag.attrs) e.links }
    else if text_eq tag.name (codes "link")
    then record e { styles = add_some (get_attr (codes "href") tag.attrs) e.styles }
    else if text_eq tag.name (codes "img")
    then record e { images = add_some (get_attr (codes "src") tag.attrs) e.images }
    else if text_eq tag.name (codes "script")
    then record e { scripts = add_some (get_attr (codes "src") tag.attrs) e.scripts }
    else e

-- `feed`, for the start tags of the text in order.
unfoldable pub feed : List Tag → LinkExtractor → LinkExtractor
feed [] e = e
feed (tag ∷ tags) e = feed tags (handle_starttag tag e)

-- A set is iterated in an order of its own; here, in which its items came in.
unfoldable pub all_links : LinkExtractor → List Text
all_links e = e.styles ++ (e.scripts ++ (e.images ++ e.links))

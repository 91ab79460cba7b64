-- ===== src/Core.antt =====
-- The crawler, src/spidercheck/core.py. What is outside the program comes in as arguments: the
-- URL library, the tags that Python's HTMLParser finds in a text, the plugins, and for each visit
-- of a page the clock and the answers of the server.
pub mod Links
pub mod Scan
pub mod Update
use spidercheck.Prelude.{
  ℕ, zero, suc, Bool, true, false, not, List, [], ◌∷◌, ◌++◌, Option, none, some, Text, codes,
  text_eq, any, keep, map, length, ◌==◌, if◌then◌else◌,
}
use spidercheck.Prelude.Int.{ℤ, pos, negsuc}
use spidercheck.Prelude.Chars.{lower}
use spidercheck.Prelude.Numerals.{int_of, str_ℕ, str_ℤ}
use spidercheck.Results.{
  Exc, Outcome, returned, raised, value_error, type_error, attribute_error, Result, success,
  failure, failure_str, is_success,
}
use spidercheck.Rows.{set_add, set_of, member, difference}
use spidercheck.Models.{Site, Page, Link, Value, Db, new_page}
use spidercheck.Action.{Action, pure, raise, lift, read, write, ◌>>=◌, ◌>>◌}
use spidercheck.Tables.{
  has_id, in_site, save_page, insert_page, insert_site, delete_pages, delete_links, delete_values,
  get_or_create_link,
}
use spidercheck.Urls.{SplitUrl, UrlLib}
use spidercheck.Sites.{
  load_site_by_name, next_page_to_check, is_local, add_page, load_page as page_of_site,
}
use spidercheck.Values.{upsert}
use spidercheck.Parser.{Tag, init, feed, all_links}
use spidercheck.WebParser.{is_valid_html}
use spidercheck.Pages.{Head, is_valid, Yields, get_full_url, get_all_valid_links, outgoing_links}

-- Response headers, by their names in lower case.
abbrev pub Headers : Type 0
Headers = Text → Option Text

or_default : Option Text → Text → Text
or_default none default = default
or_default (some v) default = v

-- `value.split(';', 1)[0]`
before_semicolon : Text → Text
before_semicolon [] = []
before_semicolon (c ∷ s) = if c == b';' then [] else c ∷ before_semicolon s

unfoldable pub get_content_type : Headers → Text
unfolding or_default before_semicolon lower
get_content_type headers = lower (before_semicolon (or_default (headers (codes "content-type")) []))

int_or_error : Option ℤ → Outcome ℤ
int_or_error none = raised value_error
int_or_error (some n) = returned n

unfoldable pub get_content_length : Headers → Outcome ℤ
unfolding or_default int_or_error
get_content_length headers =
    int_or_error (int_of (or_default (headers (codes "content-length")) (codes "0")))

unfoldable pub content_is_html : Headers → Bool
unfolding get_content_type
content_is_html headers = text_eq (get_content_type headers) (codes "text/html")

-- What `urlopen` and `decode` do with the GET request: headers and text, an `IOError`, bytes that
-- are no UTF-8, or another exception, such as that of a URL that is none.
pub data Fetch : Type 0 where
  fetched : Headers → Text → Fetch
  refused : Text → Fetch
  undecodable : Fetch
  broken : Exc → Fetch

with_length : Headers → Text → Headers
with_length headers text name = elim (headers (codes "content-length")) [
  | none ↦
      if text_eq name (codes "content-length") then some (str_ℕ (length text)) else headers name
  | some n ↦ headers name
]

-- `headers, body = get_text_from_url(url)`: the tuple of four of the error path cannot be unpacked
-- into two, and a failed decoding is a `ValueError` too.
unfoldable pub get_text_from_url : Fetch → Outcome (Headers × Text)
unfolding with_length
get_text_from_url (fetched headers text) = returned (with_length headers text, text)
get_text_from_url (refused message) = raised value_error
get_text_from_url undecodable = raised value_error
get_text_from_url (broken e) = raised e

-- `_update_links`: the loop over the links that the page yields. `after` is the set of the targets.
pub link_target : Page → Page → List ℕ → Action (List ℕ)
link_target page target after =
    if target.is_linkable
    then (do
      get_or_create_link page.id_page target.id_page >>= λ _. pure (set_add target.id_page after))
    else pure after

unfoldable pub scan_links : UrlLib → Site → Page → ℕ → List Text → List ℕ → Action (List ℕ)
unfolding link_target
scan_links urls s page now [] after = pure after
scan_links urls s page now (new_url ∷ rest) after = add_page urls s new_url now >>= λ r.
    link_target page r.0 after >>= λ after'. scan_links urls s page now rest after'

-- The exception that ended the generator, if one did.
end_of : Option Exc → Action Unit
end_of none = pure tt
end_of (some e) = raise e

-- Removes the links of the page whose targets are in the set. The program asks first whether the
-- set is empty; an empty set selects no row.
unfoldable pub remove_links : Page → List ℕ → Db → Db
unfolding delete_links
remove_links page to_remove =
    delete_links λ l. if l.from_page == page.id_page then member l.to_page to_remove else false

unfoldable pub targets_of : Page → Db → List ℕ
targets_of page db = set_of [] (map (λ l. l.to_page) (outgoing_links page db))

-- The keys of the pages that the page no longer links to, and of those that it links to anew.
unfoldable pub update_links : UrlLib → Site → Page → ℕ → Yields → Action (List ℕ × List ℕ)
unfolding end_of
update_links urls s page now yields = do
  before ← read (targets_of page)
  after ← scan_links urls s page now yields.0 []
  end_of yields.1
  write (remove_links page (difference before after))
  pure (difference before after, difference after before)

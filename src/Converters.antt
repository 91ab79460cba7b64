-- ===== src/Converters.antt =====
-- The URL converters, src/spidercheck/converters.py. A value that a converter is given may be of
-- several types: a data type says which.
pub mod Digits
pub mod Trips
use spidercheck.Prelude.{ℕ, Option, none, some, Text}
use spidercheck.Prelude.Int.{ℤ, pos, negsuc}
use spidercheck.Prelude.Numerals.{int_of}
use spidercheck.Results.{Outcome, returned, raised, value_error}
use spidercheck.Models.{Site, Page, Db}
use spidercheck.Sites.{load_site_by_name}
use spidercheck.Pages.{load_page}

pub data SiteLike : Type 0 where
  site_name : Text → SiteLike
  site_instance : Site → SiteLike
  no_site : SiteLike

found_site : Option Site → Outcome Site
found_site none = raised value_error
found_site (some s) = returned s

-- What `to_python` is given beside texts and instances has no name.
unfoldable pub site_to_python : SiteLike → Db → Outcome Site
unfolding found_site
site_to_python (site_name value) db = found_site (load_site_by_name value db)
site_to_python (site_instance s) db = returned s
site_to_python no_site db = raised value_error

unfoldable pub site_to_url : SiteLike → Outcome Text
site_to_url (site_name value) = returned value
site_to_url (site_instance s) = returned s.name
site_to_url no_site = raised value_error

pub data PageLike : Type 0 where
  page_text : Text → PageLike
  page_key : ℤ → PageLike
  page_instance : Page → PageLike

found_page : Option Page → Outcome Page
found_page none = raised value_error
found_page (some p) = returned p

-- `Page.load_page` of an integer; no key is negative.
by_key : ℤ → Db → Outcome Page
unfolding found_page
by_key (pos n) db = found_page (load_page n db)
by_key (negsuc n) db = raised value_error

by_text : Option ℤ → Db → Outcome Page
unfolding by_key
by_text none db = raised value_error
by_text (some n) db = by_key n db

unfoldable pub page_to_python : PageLike → Db → Outcome Page
unfolding by_text int_of
page_to_python (page_text value) db = by_text (int_of value) db
page_to_python (page_key n) db = by_key n db
page_to_python (page_instance p) db = returned p

unfoldable pub page_to_url : PageLike → Outcome ℤ
page_to_url (page_text value) = raised value_error
page_to_url (page_key n) = returned n
page_to_url (page_instance p) = returned (pos p.id_page)

-- ===== src/Examples.antt =====
-- A small site to run the program on: the root page links to a second page, which has a version.
pub mod Tables
pub mod Changes
pub mod Choice
pub mod Crawls
pub mod Dates
pub mod Maps
pub mod Runs
pub mod Setup
pub mod Texts
use spidercheck.Prelude.{
  ℕ, ◌≡◌, refl, Bool, true, false, List, [], ◌∷◌, Option, none, some, Text, codes, any, text_eq,
  keep,
}
use spidercheck.Prelude.Int.{ℤ, pos, negsuc}
use spidercheck.Results.{Outcome, returned}
use spidercheck.Models.{Site, Page, Link, Value, Db, new_page, empty_db}
use spidercheck.Rows.{first_row}
use spidercheck.Tables.{
  page_taken, insert_site, insert_page, get_or_create_link, get_or_create_value, save_value_text,
}
use spidercheck.Tables.Consistent.{IsConsistent, empty_db-IsConsistent}
use spidercheck.Tables.Inserts.{insert_page-IsConsistent, get_or_create_link-IsConsistent}
use spidercheck.Tables.Seeds.{insert_site-IsConsistent}
use spidercheck.Tables.Values.{get_or_create_value-IsConsistent, save_value_text-IsConsistent}

abbrev pub site : Site
site = record {
  id_site = 1;
  name = codes "s";
  scheme = codes "http";
  netloc = codes "h";
  path = codes "/";
  created_at = 5;
}

abbrev pub root : Page
root = record (new_page 1 (codes "/") [] 5) { id_page = 1 }

abbrev pub second : Page
second = record (new_page 1 (codes "/b") [] 6) { id_page = 2 }

abbrev pub link : Link
link = record { id_link = 1; from_page = 1; to_page = 2 }

abbrev pub version : Value
version = record { id_value = 1; page = 2; name = codes "version"; value = codes "1" }

abbrev pub site_db : Db
site_db = record empty_db { sites = site ∷ []; next_site = 2 }

abbrev pub root_db : Db
root_db = record site_db { pages = root ∷ []; next_page = 2 }

abbrev pub pages_db : Db
pages_db = record site_db { pages = root ∷ second ∷ []; next_page = 3 }

abbrev pub links_db : Db
links_db = record pages_db { links = link ∷ []; next_link = 2 }

abbrev pub unset_db : Db
unset_db = record links_db { values = record version { value = [] } ∷ []; next_value = 2 }

abbrev pub db : Db
db = record links_db { values = version ∷ []; next_value = 2 }

pub site_db-IsConsistent : IsConsistent site_db
unfolding insert_site any
site_db-IsConsistent = insert_site-IsConsistent site empty_db empty_db-IsConsistent

pub root_db-IsConsistent : IsConsistent root_db
unfolding insert_page any page_taken
root_db-IsConsistent = insert_page-IsConsistent root site_db site_db-IsConsistent refl

pub pages_db-IsConsistent : IsConsistent pages_db
unfolding insert_page any page_taken text_eq
pages_db-IsConsistent = insert_page-IsConsistent second root_db root_db-IsConsistent refl

pub links_db-IsConsistent : IsConsistent links_db
unfolding get_or_create_link any
links_db-IsConsistent = get_or_create_link-IsConsistent 1 2 pages_db pages_db-IsConsistent refl refl

pub unset_db-IsConsistent : IsConsistent unset_db
unfolding get_or_create_value any first_row keep
unset_db-IsConsistent =
    get_or_create_value-IsConsistent 2 (codes "version") links_db links_db-IsConsistent refl

pub db-IsConsistent : IsConsistent db
unfolding save_value_text any
db-IsConsistent = save_value_text-IsConsistent 1 (codes "1") unset_db unset_db-IsConsistent

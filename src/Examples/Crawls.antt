-- ===== src/Examples/Crawls.antt =====
-- Runs of the crawler on the example site.
use spidercheck.Prelude.{
  ℕ, zero, suc, ◌≤◌, ◌≡◌, refl, Bool, true, false, List, [], ◌∷◌, ◌++◌, Option, none, some, arith,
  Text, codes, text_eq, any, keep, All, length, ◌==◌, not, ◌&&◌, if◌then◌else◌, ◌↔◌,
}
use spidercheck.Prelude.Int.{pos, negsuc}
use spidercheck.Prelude.Numerals.{str_ℤ}
use spidercheck.Results.{Exc, returned, raised, Result, success, failure, truth}
use spidercheck.Rows.{member}
use spidercheck.Rows.Among.{Among, Among-here}
use spidercheck.Models.{Page, Db}
use spidercheck.Tables.{is_link}
use spidercheck.Tables.Consistent.{IsConsistent}
use spidercheck.Tables.Stored.{value_is}
use spidercheck.Urls.Plain.{plain, split_url, unsplit_url, join_url}
use spidercheck.Sites.{pages_of, is_local, has_error}
use spidercheck.Parser.{Tag}
use spidercheck.WebParser.{is_valid_html}
use spidercheck.Pages.{Head, responded, failed, get_full_url, Yields}
use spidercheck.Core.{Headers, fetched, update_links}
use spidercheck.Core.Links.{IsAt, Parses, Reaches}
use spidercheck.Core.Update.{update_links_lem}
use spidercheck.Plugins.{Dict, Plugin, Loaded, get_version_process, collect, run_plugins}
use spidercheck.Plugins.Run.{entry_or, throws, run_plugins_lem}
use spidercheck.Crawl.{
  process_html, Response, response, Visit, links_in, check_result, check_page, Turn, check_site,
}
use spidercheck.Crawl.Check.{check_result-Keeps}
use spidercheck.Crawl.Open.{Keeps}
use spidercheck.Crawl.Turns.{check_site_lem}
use spidercheck.Crawl.Current.{check_page-responded, check_page-unreachable}
use spidercheck.Crawl.Html.{IsCrawled, process_html-IsCrawled}
use spidercheck.Examples.{site, root, second, db, db-IsConsistent}

abbrev pub headers : Headers
headers name = if text_eq name (codes "content-type") then some (codes "text/html") else none

abbrev pub got_headers : Headers
got_headers name =
    if text_eq name (codes "content-type") then some (codes "text/html") else some (codes "62")

abbrev pub body : Text
body = codes "<html><meta name=\"version\" content=\"7\"><a href=\"/b\"></html>"

abbrev pub tags_of : Text → List Tag
tags_of text = record { name = codes "a"; attrs = (codes "href", some (codes "/b")) ∷ [] } ∷ []

abbrev pub plugins : List (Text × Plugin)
plugins = (codes "get_version", get_version_process) ∷ []

abbrev pub loaded : Loaded
loaded = returned plugins

abbrev pub visit : Head → Visit
visit head = record {
  now = 20;
  elapsed = pos 1;
  head = head;
  fetch = fetched got_headers body;
  robots = returned (λ link. returned true);
}

abbrev pub ok : Visit
ok = visit (responded (pos 200))

abbrev pub down : Visit
down = visit (failed (codes "timed out"))

abbrev pub address : Text
address = codes "http://h/"

abbrev pub answer : Response
answer = record { status_code = pos 200; headers = headers; address = address }

abbrev pub yields : Yields
yields = links_in plain tags_of loaded site root ok body

root-Among : Among (pages_of site db) root
unfolding keep
root-Among = Among-here root (second ∷ [])

root-url : get_full_url plain site root ≡ returned address
unfolding get_full_url unsplit_url join_url
root-url = refl

body-html : is_valid_html body ≡ true
unfolding is_valid_html text_eq
body-html = refl

yields-end : yields.1 ≡ none
unfolding spidercheck.Pages.get_all_valid_links spidercheck.Parser.all_links spidercheck.Parser.feed
    spidercheck.Parser.handle_starttag text_eq spidercheck.Parser.get_attr
    spidercheck.Parser.is_valid_url spidercheck.Prelude.Chars.starts_with_ci any
    spidercheck.Pages.valid_link get_full_url join_url is_local spidercheck.Pages.get_relative_url
yields-end = refl

yields-parse : All (Parses plain) yields.0
unfolding spidercheck.Pages.get_all_valid_links spidercheck.Parser.all_links spidercheck.Parser.feed
    spidercheck.Parser.handle_starttag text_eq spidercheck.Parser.get_attr
    spidercheck.Parser.is_valid_url spidercheck.Prelude.Chars.starts_with_ci any
    spidercheck.Pages.valid_link get_full_url join_url is_local spidercheck.Pages.get_relative_url
yields-parse = ((split_url (codes "/b"), refl), tt)

root-IsAt : IsAt site root db
unfolding any
root-IsAt = record { site = refl; row = refl }

process_html-IsCrawled_example :
    (message : Text) × (after : Db) × (process_html plain tags_of loaded site root address ok
        (got_headers, body)
        db
      ≡ (returned (success message), after))
    × IsCrawled plain tags_of plugins site root got_headers body yields db after
process_html-IsCrawled_example =
    process_html-IsCrawled plain tags_of plugins site root got_headers body ok address db
      db-IsConsistent root-IsAt body-html yields-end yields-parse

abbrev two_links : Yields
two_links = (codes "/b" ∷ codes "/c" ∷ [], none)

two_links-parse : All (Parses plain) two_links.0
two_links-parse = ((split_url (codes "/b"), refl), ((split_url (codes "/c"), refl), tt))

update_links_lem_example :
    (removed added : List ℕ) × (after : Db) × (update_links plain site root 9 two_links db
      ≡ (returned (removed, added), after))
    × ((b : ℕ)
        → (any (is_link 1 b) after.links ≡ true)
          ↔ ((u : Text) × (any (text_eq u) two_links.0 ≡ true) × Reaches plain site after u b))
    × ((a b : ℕ) → (1 == a) ≡ false → any (is_link a b) after.links ≡ any (is_link a b) db.links)
    × ((b : ℕ)
        → member b removed ≡ any (is_link 1 b) db.links && not (any (is_link 1 b) after.links))
    × ((b : ℕ) → member b added ≡ any (is_link 1 b) after.links && not (any (is_link 1 b) db.links))
update_links_lem_example =
    update_links_lem plain site root 9 two_links db db-IsConsistent root-IsAt refl two_links-parse

run_plugins_lem_example :
    ((e : Exc) → run_plugins (raised e) root headers body db ≡ (raised e, db))
    × ((result : Result Dict Text) × (after : Db) × (run_plugins loaded root headers body db
          ≡ (returned result, after))
        × IsConsistent after
        × (after.pages ≡ db.pages)
        × (after.links ≡ db.links)
        × (after.sites ≡ db.sites)
        × ((i : ℕ) (name text : Text)
            → any (value_is i name text) after.values ≡ (
                if 1 == i
                then entry_or (collect plugins root headers body ([], [])).0 name text false
                else any (value_is i name text) db.values))
        × (truth result ≡ not (throws plugins root headers body)))
unfolding any
run_plugins_lem_example = run_plugins_lem plugins root headers body db db-IsConsistent refl

check_result-Keeps_example :
    Keeps db (check_result plain tags_of loaded site root ok (success (response answer)) db).1
check_result-Keeps_example =
    check_result-Keeps plain tags_of loaded site root ok (success (response answer)) db
      db-IsConsistent root-Among

abbrev turns : ℕ → Turn
turns i = record { asked = 20; draw = 0; visit = down }

check_site_lem_example :
    Keeps db (check_site plain tags_of loaded site (pos 2) turns db).1
    × (length (check_site plain tags_of loaded site (pos 2) turns db).0.0 ≤ 2)
check_site_lem_example = check_site_lem plain tags_of loaded site turns (pos 2) db db-IsConsistent

check_page-responded_example :
    (e : Exc) × (check_page plain tags_of loaded site root ok db ≡ (raised e, db))
check_page-responded_example =
    check_page-responded plain tags_of loaded site root ok (pos 200) db refl

check_page-unreachable_example :
    (new : Page) × (after : Db) × (check_page plain tags_of loaded site root down db ≡ (
      returned (
          failure
            (codes "Error al comprobar "
              ++ (address
                  ++ (codes ": " ++ (str_ℤ (negsuc 0) ++ (codes ": " ++ codes "timed out")))))
            none),
      after,
    ))
    × IsConsistent after
    × Among (pages_of site after) new
    × (new.id_page ≡ 1)
    × (has_error new ≡ true)
    × (new.status ≡ negsuc 0)
    × (new.checked_at ≡ 20)
    × (new.error_message ≡ codes "timed out")
    × ((t : Page → Bool) → t root ≡ false → t new ≡ false → any t after.pages ≡ any t db.pages)
    × (after.links ≡ db.links)
    × (after.values ≡ db.values)
check_page-unreachable_example =
    check_page-unreachable plain tags_of loaded site root down (codes "timed out") address db
      db-IsConsistent root-Among refl root-url

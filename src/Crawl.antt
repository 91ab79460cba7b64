-- ===== src/Crawl.antt =====
-- The public functions of src/spidercheck/core.py: `check_page`, `check_site`, `init_site` and
-- `reset_site`. A visit holds what comes from outside while one page is checked: the clock, the
-- answers to the two requests, and the rules of robots.txt.
pub mod Open
pub mod Check
pub mod Current
pub mod Turns
pub mod Html
pub mod Reset
pub mod Setup
pub mod Starts
use spidercheck.Prelude.{
  ℕ, zero, suc, ◌+◌, Bool, true, false, List, [], ◌∷◌, ◌++◌, Option, none, some, Text, codes,
  length, ◌==◌, if◌then◌else◌,
}
use spidercheck.Prelude.Int.{ℤ, pos, negsuc}
use spidercheck.Prelude.Numerals.{str_ℕ, str_ℤ}
use spidercheck.Results.{
  Exc, Outcome, returned, raised, value_error, type_error, attribute_error, Result, success,
  failure, failure_str, truth,
}
use spidercheck.Models.{Site, Page, Db, new_page}
use spidercheck.Action.{Action, pure, raise, lift, read, write, ◌>>=◌, ◌>>◌}
use spidercheck.Tables.{in_site, save_page, insert_page, insert_site, delete_pages, delete_links}
use spidercheck.Urls.{SplitUrl, UrlLib}
use spidercheck.Sites.{
  load_site_by_name, next_page_to_check, is_local, add_page, load_page as page_of_site,
}
use spidercheck.Parser.{Tag, init, feed, all_links}
use spidercheck.WebParser.{is_valid_html}
use spidercheck.Pages.{Head, is_valid, Yields, get_full_url, get_all_valid_links}
use spidercheck.Core.{
  Headers, get_content_type, get_content_length, content_is_html, Fetch, get_text_from_url,
  update_links,
}
use spidercheck.Plugins.{Plugin, Loaded, run_plugins}

-- The attributes that `check_page` reads of `result.value`. A `Success` may hold any value; the
-- `Success` of `is_valid` holds `True`, which has none of them.
pub record Response : Type 0 where
  pub status_code : ℤ
  pub headers : Headers
  pub address : Text

-- The attribute `value` of a `Success`: a truth value such as the default `True`, or an object with
-- the attributes above.
pub data Held : Type 0 where
  plain : Bool → Held
  response : Response → Held

pub record Visit : Type 0 where
  pub now : ℕ
  pub elapsed : ℤ
  pub head : Head
  pub fetch : Fetch
  pub robots : Outcome (Text → Outcome Bool)

abbrev pub Checked : Type 0
Checked = Result Text ℤ

abbrev pub marked : Page → Visit → Page
marked page v = record page { checked_at = v.now; is_checked = true }

abbrev pub held : Result Bool ℤ → Result Held ℤ
held (success b) = success (plain b)
held (failure message code) = failure message code

-- `int(result.code)` raises on `None`.
unfoldable pub handle_failure : Page → Text → Visit → Text → Option ℤ → Action Checked
unfolding failure_str str_ℤ
handle_failure page url v message none = raise type_error
handle_failure page url v message (some code) = do
  save_page v.now (record page { status = code; error_message = message; check_time = v.elapsed })
  pure (
      failure
        (codes "Error al comprobar "
          ++ (url ++ (codes ": " ++ failure_str str_ℤ message (some code))))
        none)

abbrev pub plain_message : Text → Text
plain_message url = codes "Comprobando " ++ url

abbrev pub full_message : Text → List ℕ → List ℕ → Bool → Text
full_message url added removed plugins_phase =
    plain_message url
    ++ (codes " Enlaces nuevos: "
        ++ (str_ℕ (length added)
            ++ (codes " Enlaces Borrados: "
                ++ (str_ℕ (length removed)
                    ++ (codes " Plugins: " ++ (if plugins_phase then codes "✓" else codes "𐄂"))))))

abbrev pub teapot_message : Text → Text
teapot_message url = codes "La URL " ++ (url ++ codes " debería ser HTML, pero no lo parece")

-- One turn of `check_site`: the clock and the random number of the choice, and the visit.
pub record Turn : Type 0 where
  pub asked : ℕ
  pub draw : ℕ
  pub visit : Visit

-- What the generator yielded, and the exception that ended it, if one did.
abbrev pub Trail : Type 0
Trail = List Checked × Option Exc

abbrev pub yield_checked : Checked → Trail × Db → Trail × Db
yield_checked x ((xs, stop), db) = ((x ∷ xs, stop), db)

abbrev pub after_check : Outcome Checked → Db → Trail × Db → Trail × Db
after_check (returned x) db later = yield_checked x later
after_check (raised e) db later = (([], some e), db)

abbrev pub answered : Page → Visit → Response → ℤ → Page
answered page v r size = record page {
  status = r.status_code;
  content_type = get_content_type r.headers;
  size_bytes = size;
  check_time = v.elapsed;
}

module _ (urls : UrlLib) (tags_of : Text → List Tag) (plugins : Loaded) where
  -- `page.get_all_valid_links(body)`
  abbrev pub links_in : Site → Page → Visit → Text → Yields
  links_in s page v body =
      get_all_valid_links urls s page v.robots (all_links (feed (tags_of body) init))

  -- The branches of `check_page` for HTML of the site.
  unfoldable pub process_html : Site → Page → Text → Visit → Headers × Text → Action Checked
  process_html s page url v (headers, body) =
      if is_valid_html body
      then (do
        (removed, added) ← update_links urls s page v.now (links_in s page v body)
        plugins_phase ← run_plugins plugins page headers body
        pure (success (full_message url added removed (truth plugins_phase))))
      else (do
        save_page v.now (record page { status = pos 418; error_message = teapot_message url })
        pure (failure (teapot_message url) none))

  unfoldable pub follow : Site → Page → Text → Visit → Response → Action Checked
  unfolding process_html
  follow s page url v r =
      if content_is_html r.headers
      then (do
        local ← lift (is_local urls s r.address)
        if local
            then (do text ← lift (get_text_from_url v.fetch); process_html s page url v text)
            else (do
              write (delete_links (λ l. l.from_page == page.id_page))
              pure (success (plain_message url))))
      else pure (success (plain_message url))

  unfoldable pub handle_response : Site → Page → Text → Visit → Response → Action Checked
  unfolding follow
  handle_response s page url v r = do
    size ← lift (get_content_length r.headers)
    save_page v.now (answered page v r size)
    follow s (answered page v r size) url v r

  handle_held : Site → Page → Text → Visit → Held → Action Checked
  unfolding handle_response
  handle_held s page url v (plain b) = raise attribute_error
  handle_held s page url v (response r) = handle_response s page url v r

  unfoldable pub handle_result : Site → Page → Text → Visit → Result Held ℤ → Action Checked
  unfolding handle_failure handle_held
  handle_result s page url v (success h) = handle_held s page url v h
  handle_result s page url v (failure message code) = handle_failure page url v message code

  -- `check_page` after its call of `is_valid`, for any result of it.
  unfoldable pub check_result : Site → Page → Visit → Result Held ℤ → Action Checked
  unfolding handle_result
  check_result s page v result =
      lift (get_full_url urls s page) >>= λ url. handle_result s (marked page v) url v result

  unfoldable pub check_page : Site → Page → Visit → Action Checked
  unfolding check_result
  check_page s page v = check_result s page v (held (is_valid v.head))

  unfoldable pub check_turns : ℕ → Site → (ℕ → Turn) → ℕ → Db → Trail × Db
  unfolding check_page
  check_turns zero s turns i db = (([], none), db)
  check_turns (suc n) s turns i db = elim (next_page_to_check s db (turns i).asked (turns i).draw) [
    | none ↦ (([], none), db)
    | some page ↦
        let (o, mid) = check_page s page (turns i).visit db in
        after_check o mid (check_turns n s turns (i + 1) mid)
  ]

  unfoldable pub check_site : Site → ℤ → (ℕ → Turn) → Db → Trail × Db
  unfolding check_turns
  check_site s (pos num) turns db = check_turns num s turns 0 db
  check_site s (negsuc n) turns db = (([], none), db)

-- `load_page(name, id_page)`; a site that does not exist is `None`, which has no `load_page`.
unfoldable pub page_of : Option Site → ℕ → Db → Outcome (Option Page)
page_of none id_page db = raised attribute_error
page_of (some s) id_page db = returned (page_of_site s id_page db)

unfoldable pub load_page : Text → ℕ → Db → Outcome (Option Page)
unfolding page_of
load_page name id_page db = page_of (load_site_by_name name db) id_page db

module _ (urls : UrlLib) where
  open urls use {urlparse}

  seed_page : Site → SplitUrl → ℕ → Page
  seed_page s info now = record (new_page s.id_site info.path [] now) { status = negsuc 0 }

  abbrev pub new_site : Text → SplitUrl → ℕ → Site
  new_site name info now = record {
    id_site = 0;
    name = name;
    scheme = info.scheme;
    netloc = info.netloc;
    path = info.path;
    created_at = now;
  }

  make_site : Option Site → Text → Text → ℕ → Action Site
  unfolding seed_page
  make_site (some old) url name now = raise value_error
  make_site none url name now = do
    info ← lift (urlparse url)
    s ← insert_site (new_site name info now)
    insert_page (seed_page s info now) >>= λ _. pure s

  unfoldable pub init_site : Text → Text → ℕ → Action Site
  unfolding make_site
  init_site url name now db = make_site (load_site_by_name name db) url name now db

  empty_site : Option Site → ℕ → Action Site
  empty_site none now = raise value_error
  empty_site (some s) now = do
    write (delete_pages (in_site s.id_site))
    add_page urls s s.path now >>= λ _. pure s

  unfoldable pub reset_site : Text → ℕ → Action Site
  unfolding empty_site
  reset_site name now db = empty_site (load_site_by_name name db) now db

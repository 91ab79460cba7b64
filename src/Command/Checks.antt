-- ===== src/Command/Checks.antt =====
-- The orders `show`, `check` and `recheck` of the management command. The pause between two checks and
-- the call of `heartbeat`, which is not in the repository, are left out.
use spidercheck.Prelude.{
  ℕ, Bool, true, false, List, [], ◌∷◌, ◌++◌, Option, none, some, Text, codes, length, map, ◌==◌,
  if◌then◌else◌,
}
use spidercheck.Prelude.Int.{ℤ, pos, negsuc}
use spidercheck.Prelude.Numerals.{int_of, str_ℕ, str_ℤ}
use spidercheck.Results.{
  Exc, Outcome, returned, raised, chain, value_error, attribute_error, command_error,
}
use spidercheck.Models.{Site, Page, Db}
use spidercheck.Action.{Action}
use spidercheck.Urls.{UrlLib}
use spidercheck.Sites.{load_site_by_name, next_page_to_check}
use spidercheck.Pages.{site_of, get_relative_url, outgoing_links, incoming_links}
use spidercheck.Parser.{Tag}
use spidercheck.Plugins.{Loaded}
use spidercheck.Crawl.{Checked, Visit, Turn, Trail, check_page, check_site}
use spidercheck.Console.{
  text, result, Printed, line, Console, pure, raise, lift, read, say, perform, ◌>>=◌, ◌>>◌,
}
use spidercheck.Command.{ok_mark, waiting_mark, out, failure, load_key}
use spidercheck.Pages.{row_or_raise, full_url_of}
use spidercheck.Command.Parts.{values_of, page_at, outgoing_in_order, incoming_in_order, value_line}

unfoldable pub say_all : List Printed → Console Unit
say_all [] = pure tt
say_all (p ∷ ps) = say p >> say_all ps

module _ (urls : UrlLib) where
  link_line : ℕ → Db → Outcome Printed
  unfolding page_at row_or_raise site_of str_ℕ
  link_line i db = chain (page_at i db) λ p. chain (row_or_raise (site_of p db)) λ s.
      chain (get_relative_url urls s p) λ address.
        returned (line (text (codes " - " ++ (str_ℕ p.id_page ++ (codes ": " ++ address))) ∷ []))

  unfoldable pub say_links : List ℕ → Console Unit
  unfolding link_line
  say_links [] = pure tt
  say_links (i ∷ keys) = do
    read (link_line i) >>= (λ made. lift made >>= λ printed. say printed)
    say_links keys

  -- The heading comes only where there are links.
  unfoldable pub say_section : Text → List ℕ → Console Unit
  unfolding say_links
  say_section heading [] = pure tt
  say_section heading (i ∷ keys) = out (text heading ∷ []) >> say_links (i ∷ keys)

  unfoldable pub show_page : Page → Console Unit
  unfolding full_url_of value_line say_all say_section str_ℕ str_ℤ
  show_page page = do
    out (text (codes "Id. page        : " ++ str_ℕ page.id_page) ∷ [])
    address ← read (full_url_of urls page)
    full ← lift address
    out (text (codes "URL             : " ++ full) ∷ [])
    out (text (codes "Tamaño (bytes)  : " ++ str_ℤ page.size_bytes) ∷ [])
    out (
        text (codes "Check           : " ++ (if page.is_checked then ok_mark else waiting_mark))
        ∷ [])
    values ← read (values_of page)
    say_all (map (value_line [] 15) values)
    outgoing ← read (outgoing_in_order page)
    say_section (codes "Esta página enlaza a:") (map (λ l. l.to_page) outgoing)
    incoming ← read (incoming_in_order page)
    say_section (codes "Esta página es enlazada desde:") (map (λ l. l.from_page) incoming)

  unfoldable pub show_found : Option Page → Console Unit
  unfolding show_page
  show_found none = raise command_error
  show_found (some page) = show_page page

  unfoldable pub cmd_show : Text → ℤ → Console Unit
  unfolding show_found
  cmd_show name id_page = do
    found ← read (load_key name id_page)
    page ← lift found
    show_found page

-- How a generator ends.
unfoldable pub finish : Option Exc → Console Unit
finish none = pure tt
finish (some e) = raise e

unfoldable pub no_such_site : Text → Console Unit
no_such_site name = failure (text (codes "No existe el site [bold]" ++ (name ++ codes "[/]")) ∷ [])

-- `none` where the page is not there.
abbrev pub chosen : Option Page → Option (Option Page)
chosen none = none
chosen (some page) = some (some page)

abbrev pub is_zero : ℤ → Bool
is_zero (pos n) = n == 0
is_zero (negsuc n) = false

unfoldable pub int_or_raise : Option ℤ → Outcome ℤ
int_or_raise none = raised value_error
int_or_raise (some n) = returned n

module _ (urls : UrlLib) (tags_of : Text → List Tag) (plugins : Loaded) where
  -- What is printed while the generator runs, and how the loop ends.
  unfoldable pub report_trail : Bool → Trail → Console Unit
  unfolding say_all finish
  report_trail verbose (results, stop) = do
    say_all (if verbose then map (λ x. line (result x ∷ [])) results else [])
    finish stop

  -- The generator, run to its end.
  abbrev pub all_checks : Site → ℤ → (ℕ → Turn) → Action Trail
  all_checks s num turns db =
      let (trail, after) = check_site urls tags_of plugins s num turns db in (returned trail, after)

  unfoldable pub check_in : Bool → Text → ℤ → (ℕ → Turn) → Option Site → Console Unit
  unfolding report_trail no_such_site
  check_in verbose name num turns none = no_such_site name
  check_in verbose name num turns (some s) =
      perform (all_checks s num turns) >>= λ trail. report_trail verbose trail

  unfoldable pub cmd_check : Bool → Text → ℤ → (ℕ → Turn) → Console Unit
  unfolding check_in
  cmd_check verbose name num turns = do
    found ← read (load_site_by_name name)
    check_in verbose name num turns found

  -- `check_page(page)`: `None` has no attribute to set.
  unfoldable pub check_some : Option Page → Visit → Console (Page × Checked)
  unfolding row_or_raise site_of
  check_some none v = raise attribute_error
  check_some (some page) v = do
    found ← read (site_of page)
    s ← lift (row_or_raise found)
    checked ← perform (check_page urls tags_of plugins s page v)
    pure (page, checked)

  unfoldable pub say_recheck : Bool → Page → Checked → Console Unit
  unfolding full_url_of value_line say_all str_ℕ
  say_recheck false page checked = pure tt
  say_recheck true page checked = do
    address ← read (full_url_of urls page)
    full ← lift address
    out (text (codes "Comprobando de nuevo " ++ (full ++ codes ": ")) ∷ result checked ∷ [])
    values ← read (values_of page)
    say_all (map (value_line (codes " ▸ ") 26) values)
    outgoing ← read (outgoing_links page)
    out (text (codes " ▸ Total Enlaces de salida    : " ++ str_ℕ (length outgoing)) ∷ [])
    incoming ← read (incoming_links page)
    out (text (codes " ▸ Total Enlaces de entrada   : " ++ str_ℕ (length incoming)) ∷ [])

  -- The page to check again: `none` where the order ends with a failure.
  unfoldable pub page_to_recheck : Site → ℤ → Turn → Db → Outcome (Option (Option Page))
  page_to_recheck s id_page turn db =
      if is_zero id_page
      then returned (some (next_page_to_check s db turn.asked turn.draw))
      else chain (load_key s.name id_page db) λ found. returned (chosen found)

  unfoldable pub recheck_page : Bool → Turn → Option (Option Page) → Console Unit
  unfolding check_some say_recheck
  recheck_page verbose turn none = failure (text (codes "La página indicada no existe") ∷ [])
  recheck_page verbose turn (some page) = do
    (page', checked) ← check_some page turn.visit
    say_recheck verbose page' checked

  unfoldable pub recheck_in : Bool → Text → Text → Turn → Option Site → Console Unit
  unfolding no_such_site page_to_recheck recheck_page int_or_raise int_of
  recheck_in verbose name id turn none = no_such_site name
  recheck_in verbose name id turn (some s) = do
    id_page ← lift (int_or_raise (int_of id))
    found ← read (page_to_recheck s id_page turn)
    page ← lift found
    recheck_page verbose turn page

  -- `load_page(site, id_page)` is given the site where a name belongs; the query takes its `str`.
  unfoldable pub cmd_recheck : Bool → Text → Text → Turn → Console Unit
  unfolding recheck_in
  cmd_recheck verbose name id turn = do
    found ← read (load_site_by_name name)
    recheck_in verbose name id turn found

-- ===== src/Command.antt =====
-- The management command, src/spidercheck/management/commands/spidercheck.py: its constants, the
-- orders that do not list pages, and the order to delete a page.
pub mod Safe
pub mod Parts
pub mod Lists
pub mod Checks
pub mod Main
pub mod Deletes
pub mod Arguments
pub mod Bounds
pub mod Kept
pub mod Recheck
use spidercheck.Prelude.{
  ℕ, Bool, true, false, List, [], ◌∷◌, ◌++◌, Option, none, some, Text, codes, length, keep, map,
  if◌then◌else◌,
}
use spidercheck.Prelude.Int.{ℤ, pos, negsuc, between}
use spidercheck.Prelude.Numerals.{str_ℕ, str_ℤ}
use spidercheck.Results.{Exc, Outcome, returned, raised, chain, value_error, type_error}
use spidercheck.Models.{Site, Page, Db}
use spidercheck.Action.{Action}
use spidercheck.Urls.{UrlLib}
use spidercheck.Sites.{pages_of, all_queued_pages, pages_with_errors, url}
use spidercheck.Pages.{full_url_of}
use spidercheck.Sites.Counts.{get_all_sites, progress}
use spidercheck.Plugins.{Plugin, Registry, get_all_plugins}
use spidercheck.Crawl.{init_site, reset_site, load_page}
use spidercheck.Console.{
  Piece, text, percent, panel, message, Printed, line, start, table, Console, pure, raise, lift,
  read, say, ◌>>=◌, ◌>>◌,
}

abbrev pub ok_mark : Text
ok_mark = codes "[green]✓[/green]"

-- The source writes the control character that starts an escape sequence.
abbrev pub waiting_mark : Text
waiting_mark = codes "[italic yellow]" ++ (27 ∷ codes "[/]")

abbrev pub error_mark : Text
error_mark = codes "[red]✖[/red]"

unfoldable pub as_bool : Bool → Text
as_bool value = if value then ok_mark else error_mark

unfoldable pub as_status_code : ℤ → Text
unfolding str_ℤ
as_status_code status_code =
    if between 200 299 status_code
    then codes "[green]" ++ (str_ℤ status_code ++ codes "[/green]")
    else codes "[red]" ++ (str_ℤ status_code ++ codes "[/red]")

abbrev pub out : List Piece → Console Unit
out pieces = say (line pieces)

-- The message has no `f` in front, so the argument is not printed. `out` prints the `str` of the
-- panel.
unfoldable pub warning : Text → Console Unit
warning msg = out (panel (codes "[red]Aviso[/red]\n{msg}") ∷ [])

abbrev pub success : Console Unit
success = out (text ok_mark ∷ [])

abbrev pub failure : List Piece → Console Unit
failure msg = out (text (error_mark ++ codes " [red bold]") ∷ msg ++ (text (codes "[/]") ∷ []))

-- `try: …; self.success()` with `except ValueError as err: self.failure(err)`.
after_attempt : {A : Type 0} → Outcome A → Console Unit
after_attempt (returned a) = success
after_attempt (raised value_error) = failure (message value_error ∷ [])
after_attempt (raised e) = raise e

unfoldable pub attempt : {A : Type 0} → Action A → Console Unit
unfolding after_attempt
attempt m db = let (o, after) = m db in after_attempt o after

unfoldable pub cmd_init : UrlLib → Text → Text → ℕ → Console Unit
unfolding attempt
cmd_init urls url name now = do
  say (start (text (codes "Creando site " ++ (name ++ (codes " para la URL " ++ url))) ∷ []))
  attempt (init_site urls url name now)

unfoldable pub cmd_reset : UrlLib → Text → ℕ → Console Unit
unfolding attempt
cmd_reset urls name now = do
  say (start (text (codes "Reinicializando site " ++ name) ∷ []))
  attempt (reset_site urls name now)

unfoldable pub status_row : UrlLib → Db → Site → List Piece
unfolding str_ℕ
status_row urls db s =
    text s.name
    ∷ text (url urls s [])
    ∷ text (str_ℕ (length (pages_of s db)))
    ∷ text (str_ℕ (length (all_queued_pages s db)))
    ∷ text (str_ℕ (length (pages_with_errors s db)))
    ∷ percent (progress s db)
    ∷ []

abbrev pub status_columns : List Text
status_columns =
    codes "Name"
    ∷ codes "URL"
    ∷ codes "Encontradas"
    ∷ codes "En cola"
    ∷ codes "Errores"
    ∷ codes "Progreso"
    ∷ []

abbrev pub no_sites : Text
no_sites =
    codes
      "No hay ningún site registrado. Use el comando:\n\n    init <base url> [--name <site name>] para crear\n\n un nuevo site a analizar. Si no se especifica\n nombre, el site se llamará «default»."

warn_if_empty : List Site → Console Unit
unfolding warning
warn_if_empty [] = warning no_sites
warn_if_empty (s ∷ sites) = pure tt

unfoldable pub cmd_status : UrlLib → Console Unit
unfolding status_row warn_if_empty
cmd_status urls = do
  sites ← read get_all_sites
  warn_if_empty sites
  rows ← read (λ db. map (status_row urls db) sites)
  say (table (some (codes "Sites")) status_columns rows)

-- `docs` gives the docstring of a plugin.
plugin_row : (Text → Text) → Text × Option Plugin → List Piece
plugin_row docs (name, functor) =
    text name
    ∷ text (as_bool (elim functor [ none ↦ false | some _ ↦ true ]))
    ∷ text (docs name)
    ∷ []

unfoldable pub cmd_plugins : (Text → Plugin) → (Text → Text) → Registry → Console Unit
unfolding plugin_row
cmd_plugins import_process docs registry = say (
    table (some (codes "Plugins")) (codes "Name" ∷ codes "Status" ∷ codes "function" ∷ [])
      (map (plugin_row docs) (get_all_plugins import_process registry).0))

-- `load_page(name, id_page)` of an integer; no key is negative.
unfoldable pub load_key : Text → ℤ → Db → Outcome (Option Page)
load_key name (pos n) db = load_page name n db
load_key name (negsuc n) db = chain (load_page name 0 db) λ _. returned none

-- One round of the loop. `self.success` takes no argument, so the call for a page that is found
-- raises, once the text is made.
deleted : UrlLib → ℤ → Option Page → Console Unit
unfolding full_url_of str_ℤ
deleted urls id_page (some page) = do
  address ← read (full_url_of urls page)
  full ← lift address
  raise type_error
deleted urls id_page none =
    failure (text (codes "La página [bold]" ++ (str_ℤ id_page ++ codes "[/] no existe")) ∷ [])

unfoldable pub cmd_delete : UrlLib → Text → List ℤ → Console Unit
unfolding deleted
cmd_delete urls name [] = pure tt
cmd_delete urls name (id_page ∷ ids) = do
  found ← read (load_key name id_page)
  page ← lift found
  deleted urls id_page page
  cmd_delete urls name ids

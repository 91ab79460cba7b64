-- ===== src/Command/Lists.antt =====
-- The orders of the management command that list pages: `show`, `errors`, `last`, `queue` and `find`.
use spidercheck.Prelude.{
  ℕ, ◌+◌, Bool, List, [], ◌∷◌, ◌++◌, Option, none, some, Text, codes, length, if◌then◌else◌,
}
use spidercheck.Prelude.Int.{ℤ, pos, leb_ℤ}
use spidercheck.Prelude.Numerals.{str_ℕ}
use spidercheck.Results.{Exc, Outcome, returned, raised, chain, attribute_error}
use spidercheck.Models.{Site, Page, Db}
use spidercheck.Urls.{UrlLib}
use spidercheck.Sites.{
  load_site_by_name, all_queued_pages, all_checked_pages, pages_with_errors, url,
}
use spidercheck.Sites.Search.{find_urls_by_pattern}
use spidercheck.Pages.{get_relative_url, is_ok, waiting_time}
use spidercheck.Values.{get_value}
use spidercheck.Console.{Piece, text, moment, span, table, Console, lift, read, say, ◌>>=◌, ◌>>◌}
use spidercheck.Command.{ok_mark, waiting_mark, as_bool, as_status_code, out, failure}

abbrev pub Row : Type 0
Row = List Piece

-- The loop over all pages.
unfoldable pub all_rows : (Page → Outcome Row) → List Page → Outcome (List Row)
all_rows row [] = returned []
all_rows row (p ∷ pages) =
    let rest = all_rows row pages in chain (row p) λ r. chain rest λ rs. returned (r ∷ rs)

-- The loop of `last` and of `queue`: the row goes in, and then `if i >= num: break`.
unfoldable pub rows_until : (Page → Outcome Row) → ℤ → ℕ → List Page → Outcome (List Row)
rows_until row num i [] = returned []
rows_until row num i (p ∷ pages) =
    let rest = rows_until row num (i + 1) pages in
    chain (row p)
      λ r. if leb_ℤ num (pos i) then returned (r ∷ []) else chain rest λ rs. returned (r ∷ rs)

-- `site = Site.load_site_by_name(name)`, whose attributes are then read: `None` has none.
unfoldable pub site_or_none : Option Site → Outcome Site
site_or_none none = raised attribute_error
site_or_none (some s) = returned s

error_columns : List Text
error_columns =
    codes "Id" ∷ codes "URL" ∷ codes "Message" ∷ codes "Checked at" ∷ codes "Status code" ∷ []

abbrev pub last_columns : List Text
last_columns = codes "Id" ∷ codes "URL" ∷ codes "Title" ∷ codes "Checked at" ∷ codes "Is ok" ∷ []

abbrev pub queue_columns : List Text
queue_columns = codes "Id" ∷ codes "URL" ∷ codes "Waiting time" ∷ []

abbrev pub queue_title : Text → ℕ → Text
queue_title name size =
    codes "Queue for " ++ (name ++ (codes " (" ++ (str_ℕ size ++ codes " pages)")))

find_columns : List Text
find_columns = codes "Id" ∷ codes "URL" ∷ codes "Checked" ∷ codes "Status" ∷ []

module _ (urls : UrlLib) where
  error_row : Site → Page → Outcome Row
  unfolding str_ℕ
  error_row s p = chain (get_relative_url urls s p) λ address. returned (
      text (str_ℕ p.id_page)
      ∷ text address
      ∷ text p.error_message
      ∷ moment p.checked_at
      ∷ text (as_status_code p.status)
      ∷ [])

  unfoldable pub errors_table : Site → List Page → Console Unit
  unfolding error_row error_columns all_rows str_ℕ
  errors_table s [] =
      out (text (codes "Este site no contiene por ahora ninguna enlace roto " ++ ok_mark) ∷ [])
  errors_table s (p ∷ pages) = do
    rows ← lift (all_rows (error_row s) (p ∷ pages))
    say (
        table (some (codes "Hay " ++ (str_ℕ (length (p ∷ pages)) ++ codes " errores detectados")))
          error_columns rows)

  unfoldable pub cmd_errors : Text → Console Unit
  unfolding site_or_none errors_table
  cmd_errors name = do
    found ← read (load_site_by_name name)
    s ← lift (site_or_none found)
    out (
        text (
          codes "Errores encontrados en "
          ++ (s.name ++ (codes " (" ++ (url urls s [] ++ codes ")"))))
        ∷ [])
    pages ← read (pages_with_errors s)
    errors_table s pages

  unfoldable pub last_row_of : Site → Db → Page → Outcome Row
  unfolding str_ℕ
  last_row_of s db p = chain (get_relative_url urls s p) λ address. returned (
      text (str_ℕ p.id_page)
      ∷ text address
      ∷ text (get_value p (codes "title") [] db)
      ∷ moment p.checked_at
      ∷ text (as_bool (is_ok p))
      ∷ [])

  unfoldable pub cmd_last : Text → ℤ → Console Unit
  unfolding site_or_none
  cmd_last name num = do
    found ← read (load_site_by_name name)
    s ← lift (site_or_none found)
    rows ← read (λ db. rows_until (last_row_of s db) num 0 (all_checked_pages s db))
    rows' ← lift rows
    say (table (some (codes "Last links")) last_columns rows')

  unfoldable pub queue_row : Site → ℕ → Page → Outcome Row
  unfolding str_ℕ
  queue_row s now p =
      chain (get_relative_url urls s p)
        λ address. returned (text (str_ℕ p.id_page) ∷ text address ∷ span (waiting_time p now) ∷ [])

  -- The clock is read once.
  unfoldable pub cmd_queue : Text → ℤ → ℕ → Console Unit
  unfolding site_or_none
  cmd_queue name num now = do
    found ← read (load_site_by_name name)
    s ← lift (site_or_none found)
    pages ← read (all_queued_pages s)
    rows ← lift (rows_until (queue_row s now) num 0 pages)
    say (table (some (queue_title name (length pages))) queue_columns rows)

  find_row : Site → Page → Outcome Row
  unfolding str_ℕ
  find_row s p = chain (get_relative_url urls s p) λ address. returned (
      text (str_ℕ p.id_page)
      ∷ text address
      ∷ text (if p.is_checked then ok_mark else waiting_mark)
      ∷ text (as_status_code p.status)
      ∷ [])

  -- The generator may end in an exception.
  ended : Option Exc → Outcome (Unit {0})
  ended none = returned tt
  ended (some e) = raised e

  unfoldable pub find_in :
      (Text → Outcome (Text → Bool)) → Text → Bool → Text → Option Site → Console Unit
  unfolding find_row find_columns ended
  find_in compile pattern' use_regex name none =
      failure (text (codes "[red]Error:[/] No existe el site [red]" ++ (name ++ codes "[/]")) ∷ [])
  find_in compile pattern' use_regex name (some s) = do
    out (text (codes "Buscando por el patrón [green]" ++ (pattern' ++ codes "[/]")) ∷ [])
    found ← read (find_urls_by_pattern urls compile s pattern' use_regex)
    rows ← lift (all_rows (find_row s) found.0)
    lift (ended found.1)
    say (table none find_columns rows)

  unfoldable pub cmd_find : (Text → Outcome (Text → Bool)) → Text → Text → Bool → Console Unit
  unfolding find_in
  cmd_find compile name pattern' use_regex = do
    found ← read (load_site_by_name name)
    find_in compile pattern' use_regex name found

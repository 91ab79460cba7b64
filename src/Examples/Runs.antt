-- ===== src/Examples/Runs.antt =====
-- Runs of the management command from the empty database and on the example site.
use spidercheck.Seq.{count_if}
use spidercheck.Tables.{in_site}
use spidercheck.Rows.Sorted.{IsSorted}
use spidercheck.Prelude.{
  Bool, ◌&&◌, leb, ℕ, ◌≡◌, refl, All, Text, min, true, List, [], ◌∷◌, none, some, codes, keep, take,
  length, text_eq, any, if◌then◌else◌,
}
use spidercheck.Prelude.Int.{pos}
use spidercheck.Results.{returned, raised, type_error}
use spidercheck.Rows.{first_row}
use spidercheck.Models.{Page}
use spidercheck.Urls.Plain.{plain}
use spidercheck.Sites.{pages_of, load_site_by_name}
use spidercheck.Plugins.{get_version_process}
use spidercheck.Crawl.{Turn}
use spidercheck.Pages.{site_of, get_full_url}
use spidercheck.Command.{cmd_delete}
use spidercheck.Pages.{row_or_raise, full_url_of}
use spidercheck.Command.Arguments.{Given}
use spidercheck.Command.Bounds.{cmd_last_lem, table_of}
use spidercheck.Command.Deletes.{missing, cmd_delete_lem}
use spidercheck.Command.Lists.{Row, all_rows, cmd_last, last_row_of, last_columns}
use spidercheck.Command.Main.{Outside}
use spidercheck.Examples.{site, db}
use spidercheck.Examples.Crawls.{tags_of, loaded, down}

abbrev outside : Outside
outside = record {
  urls = plain;
  tags_of = tags_of;
  compile = λ text. returned (λ s. true);
  plugins = loaded;
  import_process = λ name. get_version_process;
  docs = λ name. name;
  registry = record { modules = []; initialized = true };
}

abbrev turns : ℕ → Turn
turns i = record { asked = 9; draw = 0; visit = down }

-- `check --name s`
abbrev check_line : Given
check_line name = if text_eq name (codes "name") then some (codes "s" ∷ []) else none

site-found : load_site_by_name (codes "s") db ≡ some site
unfolding load_site_by_name keep first_row text_eq
site-found = refl

cmd_last_lem_example :
    (pages : List Page) × (cmd_last plain (codes "s") (pos 0) db
      ≡ table_of
          (codes "Last links")
          last_columns
          (all_rows (last_row_of plain site db) (take 1 pages))
          db)
    × ((t : Page → Bool)
        → count_if pages t ≡ count_if db.pages (λ p. in_site 1 p && (p.is_checked && t p)))
    × IsSorted (λ p q. leb q.checked_at p.checked_at) pages
    × ((rows : List Row)
        → all_rows (last_row_of plain site db) (take 1 pages) ≡ returned rows
        → length rows ≡ min 1 (length pages))
cmd_last_lem_example = cmd_last_lem plain (codes "s") (pos 0) site db site-found

pages-addressed : All (λ p. (u : Text) × (full_url_of plain p db ≡ returned u)) (pages_of site db)
unfolding keep first_row full_url_of row_or_raise site_of get_full_url
    spidercheck.Urls.Plain.join_url spidercheck.Urls.Plain.unsplit_url
pages-addressed = ((codes "http://h/", refl), ((codes "http://h/b", refl), tt))

cmd_delete_lem_example :
    cmd_delete plain (codes "s") (pos 7 ∷ pos 2 ∷ pos 8 ∷ []) db
    ≡ (missing (pos 7) ∷ [], (raised type_error, db))
unfolding keep any spidercheck.Command.Deletes.until
cmd_delete_lem_example =
    cmd_delete_lem plain (codes "s") site db site-found pages-addressed (pos 7 ∷ pos 2 ∷ pos 8 ∷ [])

-- ===== src/Examples/Maps.antt =====
-- The map of values, the counts and the search, on the example site.
use spidercheck.Prelude.{
  ◌≤◌, ◌-◌, [], ◌∷◌, none, ◌≡◌, refl, ◌↔◌, ◌++◌, Bool, true, false, ◌&&◌, Text, codes, text_eq, any,
  ◌==◌, if◌then◌else◌,
}
use spidercheck.Prelude.Chars.{lower, strip}
use spidercheck.Results.{Outcome, returned, raised}
use spidercheck.Seq.{count_if}
use spidercheck.Rows.Sorted.{IsSorted}
use spidercheck.Models.{Page}
use spidercheck.Tables.{in_site}
use spidercheck.Urls.Plain.{plain}
use spidercheck.Sites.Counts.{counts, count_values, number_of, total, unless_zero, count_values_lem}
use spidercheck.Sites.Search.{search, by_status_desc, icontains, search_lem}
use spidercheck.Values.{upsert, get_value, get_title}
use spidercheck.Values.Texts.{texts_of, put, or_text, upsert-refines}
use spidercheck.Plugins.{Plugin, gave, threw, has_key, get_version_process, run_plugins}
use spidercheck.Core.{content_is_html}
use spidercheck.Plugins.Refines.{entries, last_entry, run_plugins-refines}
use spidercheck.Plugins.Documents.{
  Soup, get_title_process, index_site_process, get_info, text_or_raise, part_or,
}
use spidercheck.Plugins.Titles.{AreSilent, get_version-AreSilent, get_title_process_lem}
use spidercheck.Views.Contexts.{site_detail}
use spidercheck.Views.Counted.{site_detail_lem}
use spidercheck.Examples.{site, root, db, db-IsConsistent}
use spidercheck.Examples.Crawls.{plugins, loaded, headers, body}

upsert-refines_example :
    (texts_of (upsert 2 (codes "title") (codes "B") db).1
      ≡ put 2 (codes "title") (codes "B") (texts_of db))
    × ((p : Page) (n default : Text)
        → get_value p n default (upsert 2 (codes "title") (codes "B") db).1
          ≡ or_text (put 2 (codes "title") (codes "B") (texts_of db) p.id_page n) default)
unfolding any
upsert-refines_example = upsert-refines 2 (codes "title") (codes "B") db db-IsConsistent refl

run_plugins-refines_example : texts_of (run_plugins loaded root headers body db).1 ≡ λ i n.
    if 1 == i then last_entry (entries plugins root headers body) n none else texts_of db i n
unfolding any
run_plugins-refines_example = run_plugins-refines plugins root headers body db db-IsConsistent refl

count_values_lem_example :
    ((t : Text)
      → number_of t (count_values site (codes "version") db)
        ≡ unless_zero
            (count_if db.values (λ v. counts site (codes "version") db v && text_eq v.value t)))
    × (total (count_values site (codes "version") db)
        ≡ count_if db.values (counts site (codes "version") db))
count_values_lem_example = count_values_lem site (codes "version") db

abbrev compile : Text → Outcome (Text → Bool)
compile text = returned (λ s. true)

search_lem_example :
    ((search plain compile site (codes "B") false db).1 ≡ none)
    × ((t : Page → Bool)
        → count_if (search plain compile site (codes "B") false db).0 t
          ≡ count_if db.pages (λ p. in_site 1 p && (icontains (codes "B") p.subpath && t p)))
    × IsSorted by_status_desc (search plain compile site (codes "B") false db).0
    × ((text : Text)
        → (icontains (codes "B") text ≡ true)
          ↔ ((a b : Text) × (lower text ≡ a ++ (lower (codes "B") ++ b))))
search_lem_example = search_lem plain compile site (codes "B") db

site_detail_lem_example :
    ((site_detail site db).num_errores ≤ (site_detail site db).num_processed)
    × ((site_detail site db).num_processed ≤ (site_detail site db).num_pages)
    × ((site_detail site db).num_no_links ≤ (site_detail site db).num_pages)
    × ((site_detail site db).num_queued ≡ (
        if (site_detail site db).num_processed == (site_detail site db).num_pages
        then (site_detail site db).num_pages
        else (site_detail site db).num_pages - (site_detail site db).num_processed))
    × (total (site_detail site db).versiones ≤ (site_detail site db).num_pages)
site_detail_lem_example = site_detail_lem site db db-IsConsistent

-- A document with two titles.
abbrev soup_of : Text → Soup
soup_of text = record {
  titles = codes " A " ∷ codes "B" ∷ [];
  metas = [];
  main = none;
  body = none;
}

-- index_site.py as a plugin; its documents are left out.
abbrev index_plugin : Plugin
index_plugin page headers text =
    elim (index_site_process plain (λ t. t) soup_of site page headers text).1 [
      | returned d ↦ gave d
      | raised e ↦ threw []
    ]

index_last : AreSilent ((codes "index_site", index_plugin) ∷ []) root headers body
unfolding has_key any index_site_process get_info text_or_raise part_or content_is_html text_eq
index_last = (refl, tt)

-- The three plugins of the registry.
get_title_process_lem_example :
    get_title root
      (run_plugins
        (returned (
          (codes "get_version", get_version_process)
          ∷ (codes "get_title", get_title_process soup_of)
          ∷ (codes "index_site", index_plugin)
          ∷ []))
        root
        headers
        body
        db).1
    ≡ strip (codes " A ")
unfolding any
get_title_process_lem_example =
    get_title_process_lem soup_of root headers body
      ((codes "get_version", get_version_process) ∷ []) ((codes "index_site", index_plugin) ∷ []) db
      (get_version-AreSilent (codes "get_version") root headers body) index_last db-IsConsistent
      refl

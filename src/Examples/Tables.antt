-- ===== src/Examples/Tables.antt =====
-- The statements of the database on the example site.
use spidercheck.Prelude.{◌≡◌, refl, Bool, false, [], codes, any}
use spidercheck.Seq.{count_if}
use spidercheck.Results.{returned}
use spidercheck.Models.{Page, Db}
use spidercheck.Tables.{at_url}
use spidercheck.Tables.Saves.{IsSavable}
use spidercheck.Sites.{load_or_create}
use spidercheck.Sites.Pages.{load_or_create-twice}
use spidercheck.Examples.{site, second, db, db-IsConsistent}

abbrev renamed : Page
renamed = record second { subpath = codes "/c" }

renamed-IsSavable : IsSavable renamed db
unfolding any
renamed-IsSavable = record { present = refl; owner = refl; linked = λ a h. refl }

load_or_create-twice_example :
    (page again : Page) × (created : Bool) × (after : Db) × (load_or_create site
        (codes "/c")
        []
        7
        db
      ≡ (returned (page, created), after))
    × (load_or_create site (codes "/c") [] 8 after ≡ (returned (again, false), after))
    × (again.id_page ≡ page.id_page)
    × (count_if after.pages (at_url 1 (codes "/c") []) ≡ 1)
unfolding any
load_or_create-twice_example = load_or_create-twice site (codes "/c") [] db 7 8 db-IsConsistent refl

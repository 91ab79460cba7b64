-- ===== src/Command/Deletes.antt =====
-- What the order `delete` of the management command does: it deletes nothing.
use spidercheck.Prelude.{
  ◌≡◌, refl, All, Bool, true, false, List, [], ◌∷◌, ◌++◌, none, some, Text, codes, any, map,
  if◌then◌else◌, inl, inr, Bool-cases,
}
use spidercheck.Prelude.Int.{ℤ, pos, negsuc}
use spidercheck.Prelude.Numerals.{str_ℤ}
use spidercheck.Results.{returned, raised, type_error}
use spidercheck.Rows.{first_row}
use spidercheck.Rows.Kept.{some-first_row-All, keep-never}
use spidercheck.Models.{Site, Page, Db}
use spidercheck.Tables.{has_id}
use spidercheck.Urls.{UrlLib}
use spidercheck.Sites.{load_site_by_name, pages_of, load_page as page_of_site}
use spidercheck.Crawl.{load_page, page_of}
use spidercheck.Console.{text, Printed, line}
use spidercheck.Command.{error_mark, load_key, deleted, cmd_delete}
use spidercheck.Pages.{full_url_of}

-- Whether a key is that of a page of the site.
abbrev pub present : Site → Db → ℤ → Bool
present s db (pos n) = any (has_id n) (pages_of s db)
present s db (negsuc n) = false

-- The line for a page that is not there.
abbrev pub missing : ℤ → Printed
missing id_page = line (
    text (error_mark ++ codes " [red bold]")
    ∷ text (codes "La página [bold]" ++ (str_ℤ id_page ++ codes "[/] no existe"))
    ∷ text (codes "[/]")
    ∷ [])

-- The items in front of the first that passes the test.
unfoldable pub until : (ℤ → Bool) → List ℤ → List ℤ
until p [] = []
until p (x ∷ xs) = let rest = until p xs in if p x then [] else x ∷ rest

module _ (urls : UrlLib) (name : Text) (s : Site) (db : Db)
    (found : load_site_by_name name db ≡ some s)
    (addressed : All (λ p. (u : Text) × (full_url_of urls p db ≡ returned u)) (pages_of s db)) where
  load_key-present :
      (i : ℤ)
      → present s db i ≡ true
      → (page : Page) × (load_key name i db ≡ returned (some page))
        × ((u : Text) × (full_url_of urls page db ≡ returned u))
  unfolding load_key load_page page_of page_of_site
  load_key-present (pos n) h =
      let (page, e, u) = some-first_row-All (has_id n) (pages_of s db) addressed h in
      (page, rw (found, e) refl, u)
  load_key-present (negsuc n) h = cc

  load_key-absent : (i : ℤ) → present s db i ≡ false → load_key name i db ≡ returned none
  unfolding load_key load_page page_of page_of_site first_row
  load_key-absent (pos n) h = rw (found, keep-never (has_id n) (pages_of s db) h) refl
  load_key-absent (negsuc n) h = rw found refl

  -- If the site exists and its pages have URLs, the order `delete` leaves the database as it was, whatever keys
  -- it is given. It prints that a page does not exist for each key in front of the first that is the key of a
  -- page of the site; at that one it raises `TypeError`, and if there is none it returns.
  pub cmd_delete_lem :
      (ids : List ℤ)
      → cmd_delete urls name ids db ≡ (
        map missing (until (present s db) ids),
        (if any (present s db) ids then raised type_error else returned tt, db),
      )
  unfolding cmd_delete deleted until any str_ℤ
  cmd_delete_lem [] = refl
  cmd_delete_lem (i ∷ ids) = elim (Bool-cases (present s db i)) [
    | inl here ↦ let (page, e, (u, f)) = load_key-present i here in rw (e, f, here) refl
    | inr absent ↦ rw (load_key-absent i absent, absent, cmd_delete_lem ids) refl
  ]

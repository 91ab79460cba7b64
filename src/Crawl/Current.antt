-- ===== src/Crawl/Current.antt =====
-- What `check_page` and `check_site` of src/spidercheck/core.py do with the `is_valid` that
-- src/spidercheck/models.py has now.
use spidercheck.Prelude.{
  ℕ, zero, suc, ◌≡◌, refl, ◌∙◌, Bool, true, false, ◌++◌, List, [], none, arith, Text, codes, any,
  ◌&&◌, inl, inr, Bool-cases, Option-cases,
}
use spidercheck.Prelude.Int.{ℤ, pos, negsuc, between}
use spidercheck.Prelude.Numerals.{str_ℤ}
use spidercheck.Results.{Exc, returned, raised, Outcome-cases, failure, failure_str}
use spidercheck.Rows.Among.{Among, keep-Among}
use spidercheck.Rows.Laws.{any-keep-and}
use spidercheck.Models.{Site, Page, Db}
use spidercheck.Tables.{in_site}
use spidercheck.Tables.Consistent.{IsConsistent}
use spidercheck.Tables.Rewrites.{save_row, row-accepts}
use spidercheck.Urls.{UrlLib}
use spidercheck.Sites.{pages_of, has_error, next_page_to_check}
use spidercheck.Parser.{Tag}
use spidercheck.Pages.{responded, failed, is_valid, get_full_url}
use spidercheck.Plugins.{Loaded}
use spidercheck.Crawl.{
  Visit, marked, handle_failure, handle_result, check_result, check_page, Turn, check_turns,
  check_site,
}

module _ (urls : UrlLib) (tags_of : Text → List Tag) (plugins : Loaded) (s : Site) where
  -- If `urlopen` gives a response to the HEAD request, whatever its status, `check_page` ends in an
  -- exception and leaves the database as it was.
  pub check_page-responded :
      (page : Page) (v : Visit) (status : ℤ) (db : Db)
      → v.head ≡ responded status
      → (e : Exc) × (check_page urls tags_of plugins s page v db ≡ (raised e, db))
  unfolding check_page check_result handle_result handle_failure is_valid
  check_page-responded page v status db answer = elim (Outcome-cases (get_full_url urls s page)) [
    | inr (e, stop) ↦ (e, rw stop)
    | inl (url, got) ↦ elim (Bool-cases (between 200 299 status)) [
      | inl ok ↦ (Exc.attribute_error, rw (got, answer, ok))
      | inr bad ↦ (Exc.type_error, rw (got, answer, bad))
    ]
  ]

  -- If the HEAD request fails with a message, and the page has a URL and was read from a consistent
  -- database, `check_page` returns a failure with the URL and the message. Then there is a row
  -- that is the page, checked now, with the status -1 and the message; so it counts as a page with
  -- an error. Every test that fails for the old row and for the new one sees what it saw before,
  -- and the links and the values are the same.
  pub check_page-unreachable :
      (page : Page) (v : Visit) (message url : Text) (db : Db)
      → IsConsistent db
      → Among (pages_of s db) page
      → v.head ≡ failed message
      → get_full_url urls s page ≡ returned url
      → (new : Page) × (after : Db) × (check_page urls tags_of plugins s page v db ≡ (
        returned (
            failure
              (codes "Error al comprobar "
                ++ (url ++ (codes ": " ++ (str_ℤ (negsuc 0) ++ (codes ": " ++ message)))))
              none),
        after,
      ))
        × IsConsistent after
        × Among (pages_of s after) new
        × (new.id_page ≡ page.id_page)
        × (has_error new ≡ true)
        × (new.status ≡ negsuc 0)
        × (new.checked_at ≡ v.now)
        × (new.error_message ≡ message)
        × ((t : Page → Bool) → t page ≡ false → t new ≡ false → any t after.pages ≡ any t db.pages)
        × (after.links ≡ db.links)
        × (after.values ≡ db.values)
  unfolding check_page check_result handle_result handle_failure is_valid failure_str
  check_page-unreachable page v message url db c row answer got =
      let (among, own) = keep-Among (in_site s.id_site) db.pages page row in
      let new = record (marked page v) {
        status = negsuc 0;
        error_message = message;
        check_time = v.elapsed;
      } in
      let (after, w) =
        save_row page new db c among
          (record { id_page = refl; site = refl; subpath = refl; params = refl })
          (row-accepts page db c among) in
      (
        new,
        after,
        rw (got, answer, w.run v.now),
        w.consistent,
        (λ t h.
            any-keep-and t (in_site s.id_site) after.pages
            ∙ w.row (λ x. t x && in_site s.id_site x) (ground (arith, own))),
        refl,
        refl,
        refl,
        refl,
        refl,
        w.others,
        w.same_links,
        w.same_values,
      )

  -- If `urlopen` gives a response to the first HEAD request of a run of `check_site`, whatever its
  -- status and the number of pages to check, the run yields nothing and leaves the database as it was.
  pub check_site-stuck :
      (num status : ℤ) (turns : ℕ → Turn) (db : Db)
      → (turns 0).visit.head ≡ responded status
      → ((check_site urls tags_of plugins s num turns db).1 ≡ db)
        × ((check_site urls tags_of plugins s num turns db).0.0 ≡ [])
  unfolding check_site check_turns
  check_site-stuck (negsuc n) status turns db answer = (refl, refl)
  check_site-stuck (pos zero) status turns db answer = (refl, refl)
  check_site-stuck (pos (suc n)) status turns db answer =
      elim (Option-cases (next_page_to_check s db (turns 0).asked (turns 0).draw)) [
        | inl over ↦ rw (over, check_turns) (refl, refl)
        | inr (page, next) ↦
            let (e, run) = check_page-responded page (turns 0).visit status db answer in
            rw (next, run, check_turns) (refl, refl)
      ]

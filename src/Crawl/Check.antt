-- ===== src/Crawl/Check.antt =====
-- What `check_page` of src/spidercheck/core.py does to the database, whatever the server answers.
use spidercheck.Prelude.{
  ◌≡◌, refl, true, false, List, Option, none, some, arith, Text, ◌==◌, inl, inr, Bool-cases,
}
use spidercheck.Prelude.Int.{ℤ, pos}
use spidercheck.Results.{Outcome-cases, Result, success, failure}
use spidercheck.Rows.Among.{Among, keep-Among}
use spidercheck.Models.{Site, Page, Db}
use spidercheck.Tables.{has_id, in_site, delete_links}
use spidercheck.Tables.Consistent.{IsConsistent}
use spidercheck.Tables.Deletes.{delete_links-IsConsistent}
use spidercheck.Urls.{UrlLib}
use spidercheck.Sites.{pages_of, is_local}
use spidercheck.Parser.{Tag}
use spidercheck.WebParser.{is_valid_html}
use spidercheck.Pages.{is_valid, get_full_url}
use spidercheck.Core.{Headers, get_content_length, get_text_from_url, content_is_html, update_links}
use spidercheck.Core.Update.{update_links-IsConsistent}
use spidercheck.Plugins.{Loaded, run_plugins}
use spidercheck.Plugins.Run.{run_plugins-IsConsistent}
use spidercheck.Crawl.{
  Response, Held, plain, response, Visit, marked, held, handle_failure, links_in, teapot_message,
  process_html, follow, answered, handle_response, handle_result, check_result, check_page,
}
use spidercheck.Crawl.Open.{
  IsOpen, Keeps, Keeps-after, Keeps-self, Saved-Keeps, is_at, opened, saved, touched,
}

pub handle_failure-Keeps :
    (page : Page) (url : Text) (v : Visit) (message : Text) (code : Option ℤ) (db : Db)
    → IsConsistent db
    → IsOpen page db
    → Keeps db (handle_failure page url v message code db).1
unfolding handle_failure
handle_failure-Keeps page url v message none db c o = Keeps-self db c
handle_failure-Keeps page url v message (some code) db c o =
    let new = record page { status = code; error_message = message; check_time = v.elapsed } in
    let (after, s) = saved new db c (touched page db _ _ _ _ _ _ _ o) in
    rw (s.run v.now) (Saved-Keeps o.row new db after s)

module _ (urls : UrlLib) (tags_of : Text → List Tag) (plugins : Loaded) (s : Site) where
  process_html-Keeps :
      (page : Page) (url : Text) (v : Visit) (headers : Headers) (body : Text) (db : Db)
      → s.id_site ≡ page.site
      → IsConsistent db
      → IsOpen page db
      → Keeps db (process_html urls tags_of plugins s page url v (headers, body) db).1
  unfolding process_html
  process_html-Keeps page url v headers body db e c o = elim (Bool-cases (is_valid_html body)) [
    | inr teapot ↦
        let new = record page { status = pos 418; error_message = teapot_message url } in
        let (after, w) = saved new db c (touched page db _ _ _ _ _ _ _ o) in
        rw (teapot, w.run v.now) (Saved-Keeps o.row new db after w)
    | inl html ↦
        let yields = links_in urls tags_of plugins s page v body in
        let at = is_at page db c o s e in
        let (kept, stays) = update_links-IsConsistent urls s page v.now yields db c at in
        let mid = (update_links urls s page v.now yields db).1 in
        elim (Outcome-cases (update_links urls s page v.now yields db).0) [
          | inr (x, stop) ↦
              rw (html, stop) (record { consistent = kept; pages = λ i h. stays (has_id i) h })
          | inl (changes, run) ↦
              let (kept', pages) =
                run_plugins-IsConsistent plugins page headers body mid kept (stays _ at.row) in
              let keeps : Keeps db (run_plugins plugins page headers body mid).1 = record {
                consistent = kept';
                pages = λ i h. rw pages (stays (has_id i) h);
              } in
              elim (Outcome-cases (run_plugins plugins page headers body mid).0) [
                | inr (x, stop) ↦ rw (html, run, stop) keeps
                | inl (result, ran) ↦ rw (html, run, ran) keeps
              ]
        ]
  ]

  follow-Keeps :
      (page : Page) (url : Text) (v : Visit) (r : Response) (db : Db)
      → s.id_site ≡ page.site
      → IsConsistent db
      → IsOpen page db
      → Keeps db (follow urls tags_of plugins s page url v r db).1
  unfolding follow
  follow-Keeps page url v r db e c o = elim (Bool-cases (content_is_html r.headers)) [
    | inr other ↦ rw other (Keeps-self db c)
    | inl html ↦ elim (Outcome-cases (is_local urls s r.address)) [
      | inr (x, stop) ↦ rw (html, stop) (Keeps-self db c)
      | inl (false, away) ↦
          rw (html, away)
            (record {
              consistent = delete_links-IsConsistent (λ l. l.from_page == page.id_page) db c;
              pages = λ i h. unfold delete_links in h;
            })
      | inl (true, own) ↦ elim (Outcome-cases (get_text_from_url v.fetch)) [
        | inr (x, stop) ↦ rw (html, own, stop) (Keeps-self db c)
        | inl ((headers, body), got) ↦
            rw (html, own, got) (process_html-Keeps page url v headers body db e c o)
      ]
    ]
  ]

  handle_response-Keeps :
      (page : Page) (url : Text) (v : Visit) (r : Response) (db : Db)
      → s.id_site ≡ page.site
      → IsConsistent db
      → IsOpen page db
      → Keeps db (handle_response urls tags_of plugins s page url v r db).1
  unfolding handle_response
  handle_response-Keeps page url v r db e c o =
      elim (Outcome-cases (get_content_length r.headers)) [
        | inr (x, stop) ↦ rw stop (Keeps-self db c)
        | inl (size, got) ↦
            let new = answered page v r size in
            let (mid, w) = saved new db c (touched page db _ _ _ _ _ _ _ o) in
            rw (got, w.run v.now)
              (Keeps-after db mid _ (Saved-Keeps o.row new db mid w)
                (follow-Keeps new url v r mid e w.consistent (opened o.row new db mid w)))
      ]

  handled :
      (url : Text) (v : Visit) (result : Result Held ℤ) (page : Page) (db : Db)
      → s.id_site ≡ page.site
      → IsConsistent db
      → IsOpen (marked page v) db
      → Keeps db (handle_result urls tags_of plugins s (marked page v) url v result db).1
  unfolding handle_result
  handled url v (success (plain b)) page db e c o = Keeps-self db c
  handled url v (success (response r)) page db e c o =
      handle_response-Keeps (marked page v) url v r db e c o
  handled url v (failure message code) page db e c o =
      handle_failure-Keeps (marked page v) url v message code db c o

  -- Whatever `is_valid` gives, whatever the server answers, and whether the check returns a result
  -- or ends in an exception on the way: if the page was read from a consistent database and belongs
  -- to the site, the database that `check_page` leaves is consistent and has all pages that it had.
  pub check_result-Keeps :
      (page : Page) (v : Visit) (result : Result Held ℤ) (db : Db)
      → IsConsistent db
      → Among (pages_of s db) page
      → Keeps db (check_result urls tags_of plugins s page v result db).1
  unfolding check_result
  check_result-Keeps page v result db c row =
      let (among, own) = keep-Among (in_site s.id_site) db.pages page row in
      let e : s.id_site ≡ page.site = ground arith in
      let o : IsOpen (marked page v) db = record {
        row = page;
        among = among;
        same = record { id_page = refl; site = refl; subpath = refl; params = refl };
        linkable = refl;
      } in
      elim (Outcome-cases (get_full_url urls s page)) [
        | inr (x, stop) ↦ rw stop (Keeps-self db c)
        | inl (url, got) ↦ rw got (handled url v result page db e c o)
      ]

  pub check_page-Keeps :
      (page : Page) (v : Visit) (db : Db)
      → IsConsistent db
      → Among (pages_of s db) page
      → Keeps db (check_page urls tags_of plugins s page v db).1
  unfolding check_page
  check_page-Keeps page v db c row = check_result-Keeps page v (held (is_valid v.head)) db c row

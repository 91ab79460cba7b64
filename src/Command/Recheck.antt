-- ===== src/Command/Recheck.antt =====
-- The order `recheck` of the management command, and with it every order, keeps the database consistent.
use spidercheck.Prelude.{
  ℕ, ◌≡◌, refl, ap, ◌∙◌, Bool, List, [], Option, none, some, Text, arith, keep, inl, inr,
  Bool-cases, Option-cases,
}
use spidercheck.Prelude.Int.{ℤ, pos, negsuc}
use spidercheck.Prelude.Numerals.{int_of}
use spidercheck.Results.{returned, Outcome-cases, chain-eq-returned}
use spidercheck.Rows.{first_row}
use spidercheck.Rows.Among.{Among, keep-Among, first_row-Among}
use spidercheck.Models.{Site, Page, Db}
use spidercheck.Tables.{has_id, in_site}
use spidercheck.Tables.Consistent.{IsConsistent}
use spidercheck.Urls.{UrlLib}
use spidercheck.Sites.{load_site_by_name, next_page_to_check, pages_of, load_page as page_of_site}
use spidercheck.Sites.Frontier.{next_page_to_check-Among}
use spidercheck.Parser.{Tag}
use spidercheck.Plugins.{Loaded}
use spidercheck.Crawl.{Visit, Turn, load_page, page_of, check_page}
use spidercheck.Crawl.Check.{check_page-Keeps}
use spidercheck.Pages.{site_of}
use spidercheck.Pages.Owners.{own_row}
use spidercheck.Console.{pure}
use spidercheck.Command.{load_key, cmd_plugins}
use spidercheck.Pages.{row_or_raise}
use spidercheck.Command.Checks.{
  chosen, is_zero, int_or_raise, check_some, page_to_recheck, recheck_page, recheck_in, cmd_recheck,
  say_recheck, no_such_site,
}
use spidercheck.Command.Kept.{
  say_recheck-IsSafe, cmd_init-IsSafe, cmd_reset-IsSafe, cmd_errors-IsSafe, cmd_queue-IsSafe,
  cmd_last-IsSafe, cmd_delete-IsSafe, cmd_check-IsSafe, cmd_status-IsSafe, cmd_find-IsSafe,
  cmd_show-IsSafe,
}
use spidercheck.Command.Safe.{safe, run_safe, resume-IsConsistent}
use spidercheck.Command.Main.{
  Outside, Order, handle, run_order, init_order, reset_order, errors_order, queue_order, last_order,
  delete_order, check_order, recheck_order, status_order, find_order, show_order, plugins_order,
  no_order,
}

load_page-Among :
    (name : Text) (i : ℕ) (page : Page) (db : Db)
    → load_page name i db ≡ returned (some page)
    → Among db.pages page
unfolding load_page page_of page_of_site
load_page-Among name i page db h = elim (Option-cases (load_site_by_name name db)) [
  | inl unknown ↦ let e = rw unknown at h in cc
  | inr (s, found) ↦
      let e : first_row (keep (has_id i) (pages_of s db)) ≡ some page =
        ground (arith, rw found at h) in
      let row = (keep-Among (has_id i) (pages_of s db) page (first_row-Among _ page e)).0 in
      (keep-Among (in_site s.id_site) db.pages page row).0
]

chosen-some :
    (o : Option Page) (page : Page)
    → returned (chosen o) ≡ returned (some (some page))
    → o ≡ some page
chosen-some none page h = cc
chosen-some (some p) page h = ground arith

load_key-Among :
    (name : Text) (i : ℤ) (page : Page) (db : Db)
    → load_key name i db ≡ returned (some page)
    → Among db.pages page
unfolding load_key
load_key-Among name (pos n) page db h = load_page-Among name n page db h
load_key-Among name (negsuc n) page db h =
    let (a, e, f) = chain-eq-returned (load_page name 0 db) (λ _. returned none) h in cc

module _ (urls : UrlLib) (tags_of : Text → List Tag) (plugins : Loaded) where
  check_some-IsConsistent :
      (page : Page) (v : Visit) (db : Db)
      → IsConsistent db
      → Among db.pages page
      → IsConsistent (check_some urls tags_of plugins (some page) v db).1.1
  unfolding check_some row_or_raise
  check_some-IsConsistent page v db c row = elim (Option-cases (site_of page db)) [
    | inl absent ↦ rw absent c
    | inr (s, owner) ↦
        let m = check_page urls tags_of plugins s page v in
        rw owner (
          resume-IsConsistent [] (m db).0 (λ checked. pure (page, checked)) (m db).1
            (λ checked. safe λ db c. c)
            (check_page-Keeps urls tags_of plugins s page v db c
              (own_row page s db row owner)).consistent)
  ]

  page_to_recheck-Among :
      (s : Site) (i : ℤ) (turn : Turn) (page : Page) (db : Db)
      → page_to_recheck urls tags_of plugins s i turn db ≡ returned (some (some page))
      → Among db.pages page
  unfolding page_to_recheck
  page_to_recheck-Among s i turn page db h = elim (Bool-cases (is_zero i)) [
    | inl zero' ↦
        let e : next_page_to_check s db turn.asked turn.draw ≡ some page =
          ground (arith, rw zero' at h) in
        (keep-Among (in_site s.id_site) db.pages page
          (next_page_to_check-Among s db turn.asked turn.draw page e)).0
    | inr other ↦
        let (found, e, f) = chain-eq-returned (load_key s.name i db) _ (rw other at h) in
        load_key-Among s.name i page db (e ∙ ap returned (chosen-some found page f))
  ]

  recheck_page-IsConsistent :
      (verbose : Bool) (turn : Turn) (o : Option (Option Page)) (db : Db)
      → IsConsistent db
      → ((page : Page) → o ≡ some (some page) → Among db.pages page)
      → IsConsistent (recheck_page urls tags_of plugins verbose turn o db).1.1
  unfolding recheck_page
  recheck_page-IsConsistent verbose turn none db c row = c
  recheck_page-IsConsistent verbose turn (some none) db c row = unfold check_some in c
  recheck_page-IsConsistent verbose turn (some (some page)) db c row =
      let m = check_some urls tags_of plugins (some page) turn.visit in
      resume-IsConsistent (m db).0 (m db).1.0
        (λ (page', checked). say_recheck urls tags_of plugins verbose page' checked) (m db).1.1
        (λ (page', checked). say_recheck-IsSafe urls tags_of plugins verbose page' checked)
        (check_some-IsConsistent page turn.visit db c (row page refl))

  cmd_recheck-IsConsistent :
      (verbose : Bool) (name id : Text) (turn : Turn) (db : Db)
      → IsConsistent db
      → IsConsistent (cmd_recheck urls tags_of plugins verbose name id turn db).1.1
  unfolding cmd_recheck recheck_in no_such_site
  cmd_recheck-IsConsistent verbose name id turn db c =
      elim (Option-cases (load_site_by_name name db)) [
        | inl unknown ↦ rw unknown c
        | inr (s, found) ↦ elim (Outcome-cases (int_or_raise (int_of id))) [
          | inr (e, stop) ↦ rw (found, stop) c
          | inl (i, read') ↦
              elim (Outcome-cases (page_to_recheck urls tags_of plugins s i turn db)) [
                | inr (e, stop) ↦ rw (found, read', stop) c
                | inl (o, chosen) ↦
                    rw (found, read', chosen)
                      (recheck_page-IsConsistent verbose turn o db c
                        λ page e. page_to_recheck-Among s i turn page db (chosen ∙ ap returned e))
              ]
        ]
      ]

-- Whatever order of the management command runs, with whatever options, and however it ends, a consistent
-- database is consistent afterwards.
pub handle-IsConsistent :
    (o : Outside) (help : Text) (verbose : Bool) (now : ℕ) (turns : ℕ → Turn) (order : Order)
    (db : Db)
    → IsConsistent db
    → IsConsistent (handle o help verbose now turns order db).1.1
unfolding handle run_order
handle-IsConsistent o help verbose now turns (init_order url name) db c =
    run_safe _ (cmd_init-IsSafe o.urls url name now) db c
handle-IsConsistent o help verbose now turns (reset_order name) db c =
    run_safe _ (cmd_reset-IsSafe o.urls name now) db c
handle-IsConsistent o help verbose now turns (errors_order name) db c =
    run_safe _ (cmd_errors-IsSafe o.urls name) db c
handle-IsConsistent o help verbose now turns (queue_order name num) db c =
    run_safe _ (cmd_queue-IsSafe o.urls name num now) db c
handle-IsConsistent o help verbose now turns (last_order name num) db c =
    run_safe _ (cmd_last-IsSafe o.urls name num) db c
handle-IsConsistent o help verbose now turns (delete_order name ids) db c =
    run_safe _ (cmd_delete-IsSafe o.urls name ids) db c
handle-IsConsistent o help verbose now turns (check_order name num) db c =
    run_safe _ (cmd_check-IsSafe o.urls o.tags_of o.plugins verbose name num turns) db c
handle-IsConsistent o help verbose now turns (recheck_order id name) db c =
    cmd_recheck-IsConsistent o.urls o.tags_of o.plugins verbose name id (turns 0) db c
handle-IsConsistent o help verbose now turns status_order db c =
    run_safe _ (cmd_status-IsSafe o.urls) db c
handle-IsConsistent o help verbose now turns (find_order pattern' name regex) db c =
    run_safe _ (cmd_find-IsSafe o.urls o.compile name pattern' regex) db c
handle-IsConsistent o help verbose now turns (show_order name id_page) db c =
    run_safe _ (cmd_show-IsSafe o.urls name id_page) db c
handle-IsConsistent o help verbose now turns plugins_order db c = unfold cmd_plugins in c
handle-IsConsistent o help verbose now turns no_order db c = c

-- ===== src/Command/Kept.antt =====
-- What the orders of the management command do to the database.
use spidercheck.Prelude.{ℕ, Bool, true, false, List, [], ◌∷◌, Option, none, some, Text}
use spidercheck.Prelude.Int.{ℤ}
use spidercheck.Results.{
  Exc, Outcome, returned, raised, value_error, type_error, attribute_error, key_error,
  integrity_error, assertion_error, regex_error, overflow_error, command_error, does_not_exist,
  name_error,
}
use spidercheck.Models.{Site, Page, Db}
use spidercheck.Action.{Action}
use spidercheck.Tables.Consistent.{IsConsistent}
use spidercheck.Urls.{UrlLib}
use spidercheck.Console.{Printed, perform}
use spidercheck.Command.{
  attempt, after_attempt, cmd_init, cmd_reset, cmd_status, warn_if_empty, warning, cmd_delete,
  deleted,
}
use spidercheck.Parser.{Tag}
use spidercheck.Plugins.{Loaded}
use spidercheck.Crawl.{Checked, Turn, Trail, init_site, reset_site}
use spidercheck.Crawl.Starts.{init_site-IsConsistent, reset_site-IsConsistent}
use spidercheck.Crawl.Turns.{check_site_lem}
use spidercheck.Command.Lists.{cmd_errors, cmd_last, cmd_queue, cmd_find, errors_table, find_in}
use spidercheck.Command.Checks.{
  say_all, say_links, say_section, show_found, show_page, cmd_show, report_trail, check_in,
  no_such_site, finish, all_checks, cmd_check, say_recheck,
}
use spidercheck.Command.Safe.{steps, IsSafe, IsSafe-bind, run_safe, safe}

module _ (urls : UrlLib) where
  pub cmd_last-IsSafe : (name : Text) (num : ℤ) → IsSafe (cmd_last urls name num)
  unfolding cmd_last
  cmd_last-IsSafe name num = search steps

  pub cmd_queue-IsSafe : (name : Text) (num : ℤ) (now : ℕ) → IsSafe (cmd_queue urls name num now)
  unfolding cmd_queue
  cmd_queue-IsSafe name num now = search steps

  errors_table-IsSafe : (s : Site) (pages : List Page) → IsSafe (errors_table urls s pages)
  unfolding errors_table
  errors_table-IsSafe s [] = search steps
  errors_table-IsSafe s (p ∷ pages) = search steps

  pub cmd_errors-IsSafe : (name : Text) → IsSafe (cmd_errors urls name)
  unfolding cmd_errors
  cmd_errors-IsSafe name = search (steps, errors_table-IsSafe)

  find_in-IsSafe :
      (compile : Text → Outcome (Text → Bool)) (pattern' : Text) (use_regex : Bool) (name : Text)
      (o : Option Site)
      → IsSafe (find_in urls compile pattern' use_regex name o)
  unfolding find_in
  find_in-IsSafe compile pattern' use_regex name none = search steps
  find_in-IsSafe compile pattern' use_regex name (some s) = search steps

  pub cmd_find-IsSafe :
      (compile : Text → Outcome (Text → Bool)) (name pattern' : Text) (use_regex : Bool)
      → IsSafe (cmd_find urls compile name pattern' use_regex)
  unfolding cmd_find
  cmd_find-IsSafe compile name pattern' use_regex = search (steps, find_in-IsSafe)

  warn_if_empty-IsSafe : (sites : List Site) → IsSafe (warn_if_empty sites)
  unfolding warn_if_empty warning
  warn_if_empty-IsSafe [] = search steps
  warn_if_empty-IsSafe (s ∷ sites) = search steps

  pub cmd_status-IsSafe : IsSafe (cmd_status urls)
  unfolding cmd_status
  cmd_status-IsSafe = search (steps, warn_if_empty-IsSafe)

  -- A safe statement in a `try` is safe.
  attempted : {A : Type 0} (o : Outcome A) → IsSafe (after_attempt o)
  unfolding after_attempt
  attempted (returned a) = search steps
  attempted (raised value_error) = search steps
  attempted (raised type_error) = search steps
  attempted (raised attribute_error) = search steps
  attempted (raised key_error) = search steps
  attempted (raised integrity_error) = search steps
  attempted (raised assertion_error) = search steps
  attempted (raised regex_error) = search steps
  attempted (raised overflow_error) = search steps
  attempted (raised command_error) = search steps
  attempted (raised does_not_exist) = search steps
  attempted (raised name_error) = search steps

  attempt-IsSafe :
      {A : Type 0} (m : Action A)
      → ((db : Db) → IsConsistent db → IsConsistent (m db).1)
      → IsSafe (attempt m)
  unfolding attempt
  attempt-IsSafe m h =
      safe λ db c. run_safe (after_attempt (m db).0) (attempted (m db).0) _ (h db c)

  pub cmd_init-IsSafe : (url name : Text) (now : ℕ) → IsSafe (cmd_init urls url name now)
  unfolding cmd_init
  cmd_init-IsSafe url name now =
      let made =
        attempt-IsSafe (init_site urls url name now)
          (λ db c. init_site-IsConsistent urls name now db c url) in
      search (steps, made)

  pub cmd_reset-IsSafe : (name : Text) (now : ℕ) → IsSafe (cmd_reset urls name now)
  unfolding cmd_reset
  cmd_reset-IsSafe name now =
      let made =
        attempt-IsSafe (reset_site urls name now)
          (λ db c. reset_site-IsConsistent urls name now db c) in
      search (steps, made)

deleted-IsSafe : (urls : UrlLib) (id_page : ℤ) (o : Option Page) → IsSafe (deleted urls id_page o)
unfolding deleted
deleted-IsSafe urls id_page none = search steps
deleted-IsSafe urls id_page (some page) = search steps

pub cmd_delete-IsSafe :
    (urls : UrlLib) (name : Text) (ids : List ℤ) → IsSafe (cmd_delete urls name ids)
unfolding cmd_delete
cmd_delete-IsSafe urls name [] = search steps
cmd_delete-IsSafe urls name (id_page ∷ ids) =
    let rest = cmd_delete-IsSafe urls name ids in search (steps, deleted-IsSafe, rest)

say_all-IsSafe : (ps : List Printed) → IsSafe (say_all ps)
unfolding say_all
say_all-IsSafe [] = search steps
say_all-IsSafe (p ∷ ps) = let rest = say_all-IsSafe ps in search (steps, rest)

module _ (urls : UrlLib) where
  say_links-IsSafe : (keys : List ℕ) → IsSafe (say_links urls keys)
  unfolding say_links
  say_links-IsSafe [] = search steps
  say_links-IsSafe (i ∷ keys) = let rest = say_links-IsSafe keys in search (steps, rest)

  say_section-IsSafe : (heading : Text) (keys : List ℕ) → IsSafe (say_section urls heading keys)
  unfolding say_section
  say_section-IsSafe heading [] = search steps
  say_section-IsSafe heading (i ∷ keys) = search (steps, say_links-IsSafe)

  show_found-IsSafe : (o : Option Page) → IsSafe (show_found urls o)
  unfolding show_found show_page
  show_found-IsSafe none = search steps
  show_found-IsSafe (some page) = search (steps, say_all-IsSafe, say_section-IsSafe) depth 20

  pub cmd_show-IsSafe : (name : Text) (id_page : ℤ) → IsSafe (cmd_show urls name id_page)
  unfolding cmd_show
  cmd_show-IsSafe name id_page = search (steps, show_found-IsSafe)

finish-IsSafe : (stop : Option Exc) → IsSafe (finish stop)
unfolding finish
finish-IsSafe none = search steps
finish-IsSafe (some e) = search steps

module _ (urls : UrlLib) (tags_of : Text → List Tag) (plugins : Loaded) where
  report_trail-IsSafe :
      (verbose : Bool) (trail : Trail) → IsSafe (report_trail urls tags_of plugins verbose trail)
  unfolding report_trail
  report_trail-IsSafe verbose (results, stop) = search (steps, say_all-IsSafe, finish-IsSafe)

  check_in-IsSafe :
      (verbose : Bool) (name : Text) (num : ℤ) (turns : ℕ → Turn) (o : Option Site)
      → IsSafe (check_in urls tags_of plugins verbose name num turns o)
  unfolding check_in no_such_site
  check_in-IsSafe verbose name num turns none = search steps
  check_in-IsSafe verbose name num turns (some s) =
      IsSafe-bind (perform (all_checks urls tags_of plugins s num turns))
        (report_trail urls tags_of plugins verbose)
        (safe λ db c. (check_site_lem urls tags_of plugins s turns num db c).0.consistent)
        (report_trail-IsSafe verbose)

  pub cmd_check-IsSafe :
      (verbose : Bool) (name : Text) (num : ℤ) (turns : ℕ → Turn)
      → IsSafe (cmd_check urls tags_of plugins verbose name num turns)
  unfolding cmd_check
  cmd_check-IsSafe verbose name num turns = search (steps, check_in-IsSafe)

  pub say_recheck-IsSafe :
      (verbose : Bool) (page : Page) (checked : Checked)
      → IsSafe (say_recheck urls tags_of plugins verbose page checked)
  unfolding say_recheck
  say_recheck-IsSafe false page checked = search steps
  say_recheck-IsSafe true page checked = search (steps, say_all-IsSafe) depth 20

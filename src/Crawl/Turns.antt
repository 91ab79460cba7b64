-- ===== src/Crawl/Turns.antt =====
-- `check_site` of src/spidercheck/core.py: how far the generator goes, and what it leaves.
use spidercheck.Prelude.{ℕ, zero, suc, ◌+◌, ◌≤◌, List, arith, Text, length, inl, inr, Option-cases}
use spidercheck.Prelude.Int.{ℤ, pos, negsuc}
use spidercheck.Results.{Outcome-cases}
use spidercheck.Models.{Site, Db}
use spidercheck.Tables.Consistent.{IsConsistent}
use spidercheck.Urls.{UrlLib}
use spidercheck.Sites.{next_page_to_check}
use spidercheck.Sites.Frontier.{next_page_to_check-Among}
use spidercheck.Parser.{Tag}
use spidercheck.Plugins.{Loaded}
use spidercheck.Crawl.{Turn, check_page, check_turns, check_site}
use spidercheck.Crawl.Check.{check_page-Keeps}
use spidercheck.Crawl.Open.{Keeps, Keeps-self, Keeps-after}

-- `max(num, 0)`
abbrev pub at_most : ℤ → ℕ
at_most (pos n) = n
at_most (negsuc n) = 0

module _ (urls : UrlLib) (tags_of : Text → List Tag) (plugins : Loaded) (s : Site)
    (turns : ℕ → Turn) where
  turns_lem :
      (n i : ℕ) (db : Db)
      → IsConsistent db
      → Keeps db (check_turns urls tags_of plugins n s turns i db).1
        × (length (check_turns urls tags_of plugins n s turns i db).0.0 ≤ n)
  unfolding check_turns
  turns_lem zero i db c = (Keeps-self db c, omega arith)
  turns_lem (suc n) i db c =
      let turn = turns i in
      elim (Option-cases (next_page_to_check s db turn.asked turn.draw)) [
        | inl over ↦ rw (over, check_turns) (Keeps-self db c, omega arith)
        | inr (page, next) ↦
            let row = next_page_to_check-Among s db turn.asked turn.draw page next in
            let mid = (check_page urls tags_of plugins s page turn.visit db).1 in
            let k : Keeps db mid =
              check_page-Keeps urls tags_of plugins s page turn.visit db c row in
            elim (Outcome-cases (check_page urls tags_of plugins s page turn.visit db).0) [
              | inr (e, stop) ↦ rw (next, stop, check_turns) (k, omega arith)
              | inl (x, ran) ↦
                  let (l, few) = turns_lem n (i + 1) mid k.consistent in
                  rw (next, ran, check_turns) (Keeps-after db mid _ k l, omega (arith, few))
            ]
      ]

  -- `check_site` on a consistent database, with any number of pages to check (negative ones
  -- included), yields at most that many results, and leaves a consistent database that has all
  -- pages that it had, even if an exception ends it.
  pub check_site_lem :
      (num : ℤ) (db : Db)
      → IsConsistent db
      → Keeps db (check_site urls tags_of plugins s num turns db).1
        × (length (check_site urls tags_of plugins s num turns db).0.0 ≤ at_most num)
  unfolding check_site
  check_site_lem (pos n) db c = turns_lem n 0 db c
  check_site_lem (negsuc n) db c = (Keeps-self db c, omega arith)

-- ===== src/Command/Main.antt =====
-- `handle` of the management command: the order that the arguments name is run. What `add_arguments`
-- declares, with its defaults, is what `argparse` makes of a command line: an order with its options.
-- The clock and the answers of the servers come with the order.
use spidercheck.Prelude.{ℕ, Bool, List, [], ◌∷◌, ◌++◌, Text, codes}
use spidercheck.Prelude.Int.{ℤ}
use spidercheck.Results.{Outcome}
use spidercheck.Urls.{UrlLib}
use spidercheck.Parser.{Tag}
use spidercheck.Plugins.{Plugin, Loaded, Registry}
use spidercheck.Crawl.{Turn}
use spidercheck.Console.{text, Console, ◌>>◌}
use spidercheck.Command.{cmd_init, cmd_reset, cmd_status, cmd_plugins, cmd_delete, out}
use spidercheck.Command.Lists.{cmd_errors, cmd_last, cmd_queue, cmd_find}
use spidercheck.Command.Checks.{cmd_show, cmd_check, cmd_recheck}

pub data Order : Type 0 where
  init_order : (url name : Text) → Order
  reset_order : (name : Text) → Order
  errors_order : (name : Text) → Order
  queue_order : (name : Text) (num : ℤ) → Order
  last_order : (name : Text) (num : ℤ) → Order
  delete_order : (name : Text) (ids : List ℤ) → Order
  check_order : (name : Text) (num : ℤ) → Order
  recheck_order : (id name : Text) → Order
  status_order : Order
  find_order : (pattern' name : Text) (regex : Bool) → Order
  show_order : (name : Text) (id_page : ℤ) → Order
  plugins_order : Order
  no_order : Order

abbrev usage : Text
usage = codes "[python] ./manage.py spidercheck [orden]"

-- What lies outside: the URL library, the tags of a text, regular expressions, and the plugins with
-- how they are imported and documented.
pub record Outside : Type 0 where
  pub urls : UrlLib
  pub tags_of : Text → List Tag
  pub compile : Text → Outcome (Text → Bool)
  pub plugins : Loaded
  pub import_process : Text → Plugin
  pub docs : Text → Text
  pub registry : Registry

module _ (o : Outside) (help : Text) where
  -- `options['func'](options)`
  unfoldable pub run_order : Bool → ℕ → (ℕ → Turn) → Order → Console Unit
  run_order verbose now turns (init_order url name) = cmd_init o.urls url name now
  run_order verbose now turns (reset_order name) = cmd_reset o.urls name now
  run_order verbose now turns (errors_order name) = cmd_errors o.urls name
  run_order verbose now turns (queue_order name num) = cmd_queue o.urls name num now
  run_order verbose now turns (last_order name num) = cmd_last o.urls name num
  run_order verbose now turns (delete_order name ids) = cmd_delete o.urls name ids
  run_order verbose now turns (check_order name num) =
      cmd_check o.urls o.tags_of o.plugins verbose name num turns
  run_order verbose now turns (recheck_order id name) =
      cmd_recheck o.urls o.tags_of o.plugins verbose name id (turns 0)
  run_order verbose now turns status_order = cmd_status o.urls
  run_order verbose now turns (find_order pattern' name regex) =
      cmd_find o.urls o.compile name pattern' regex
  run_order verbose now turns (show_order name id_page) = cmd_show o.urls name id_page
  run_order verbose now turns plugins_order = cmd_plugins o.import_process o.docs o.registry
  run_order verbose now turns no_order =
      out (text help ∷ []) >> out (text (codes "Use:\n\t" ++ usage) ∷ [])

  unfoldable pub handle : Bool → ℕ → (ℕ → Turn) → Order → Console Unit
  unfolding run_order
  handle verbose now turns order = run_order verbose now turns order

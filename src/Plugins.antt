-- ===== src/Plugins.antt =====
-- The plugins: the registry of src/spidercheck/plugins/__init__.py, the plugin of
-- src/spidercheck/plugins/get_version.py, and `_run_plugins` of src/spidercheck/core.py. A plugin
-- is an argument: a function of the page, its headers and its text that gives a dictionary or
-- raises. Values are the texts that `str` makes of them.
pub mod Documents
pub mod Loading
pub mod Refines
pub mod Run
pub mod Titles
pub mod Words
use spidercheck.Prelude.{
  ℕ, Bool, true, false, not, ◌&&◌, List, [], ◌∷◌, ◌++◌, Option, none, some, Text, codes, text_eq,
  any, keep, map, ◌==◌, if◌then◌else◌,
}
use spidercheck.Prelude.Chars.{is_digit}
use spidercheck.Results.{Outcome, Result, success, failure}
use spidercheck.Models.{Page, Value, Db}
use spidercheck.Action.{Action, pure, lift, read, write, ◌>>=◌, ◌>>◌}
use spidercheck.Tables.{delete_values}
use spidercheck.Values.{upsert}
use spidercheck.Core.{Headers, content_is_html}

-- A dictionary of texts, in the order in which its keys came in.
abbrev pub Dict : Type 0
Dict = List (Text × Text)

pub data PluginRun : Type 0 where
  gave : Dict → PluginRun
  threw : Text → PluginRun

abbrev pub Plugin : Type 0
Plugin = Page → Headers → Text → PluginRun

-- `self.modules` and `self._initialized`; a module that is not imported yet has no function.
pub record Registry : Type 0 where
  pub modules : List (Text × Option Plugin)
  pub initialized : Bool

unfoldable pub initialize : (Text → Plugin) → Registry → Registry
initialize import_process r = if r.initialized then r else record {
  modules = map (λ m. (m.0, some (import_process m.0))) r.modules;
  initialized = true;
}

unfoldable pub get_all_plugins : (Text → Plugin) → Registry → List (Text × Option Plugin) × Registry
unfolding initialize
get_all_plugins import_process r =
    let ready = if not r.initialized then initialize import_process r else r in
    (ready.modules, ready)

-- `d[name] = value`
unfoldable pub dict_put : Text → Text → Dict → Dict
dict_put name value [] = (name, value) ∷ []
dict_put name value ((n, v) ∷ d) =
    if text_eq n name then (n, value) ∷ d else (n, v) ∷ dict_put name value d

unfoldable pub dict_update : Dict → Dict → Dict
unfolding dict_put
dict_update d [] = d
dict_update d ((name, value) ∷ more) = dict_update (dict_put name value d) more

unfoldable pub has_key : Text → Dict → Bool
has_key name d = any (λ e. text_eq e.0 name) d

-- One plugin: its values are taken over, or its failure is noted.
unfoldable note_run : Text → PluginRun → Dict × List Text → Dict × List Text
unfolding dict_update
note_run name (gave result) (values, failures) = (dict_update values result, failures)
note_run name (threw message) (values, failures) =
    (values, failures ++ (name ++ (codes ": " ++ message)) ∷ [])

unfoldable pub collect :
    List (Text × Plugin) → Page → Headers → Text → Dict × List Text → Dict × List Text
unfolding note_run
collect [] page headers body found = found
collect ((name, process) ∷ plugins) page headers body found =
    collect plugins page headers body (note_run name (process page headers body) found)

-- `antes - despues`: the names of the page's values that no plugin gave this time.
unfoldable pub stale_names : Page → Dict → Db → List Text
unfolding has_key
stale_names page values db =
    keep (λ name. not (has_key name values))
      (map (λ v. v.name) (keep (λ v. v.page == page.id_page) db.values))

-- `page.values.filter(name__in=a_borrar).delete()`; an empty set selects no row.
unfoldable pub remove_values : Page → List Text → Db → Db
unfolding delete_values
remove_values page names =
    delete_values λ v. if v.page == page.id_page then any (λ n. text_eq n v.name) names else false

unfoldable pub upsert_all : Page → Dict → Action Unit
upsert_all page [] = pure tt
upsert_all page ((name, value) ∷ values) =
    upsert page.id_page name value >>= λ _. upsert_all page values

join_failures : List Text → Text
join_failures [] = []
join_failures (f ∷ []) = f
join_failures (f ∷ g ∷ rest) = f ++ (codes "\n - " ++ join_failures (g ∷ rest))

report : Dict → List Text → Result Dict Text
unfolding join_failures
report values [] = success values
report values (f ∷ failures) =
    failure (codes "Error al ejecutar los plug-ins:\n" ++ join_failures (f ∷ failures)) none

-- What `registry.get_all_plugins()` gives: the plugins, or the exception of an import.
abbrev pub Loaded : Type 0
Loaded = Outcome (List (Text × Plugin))

unfoldable pub run_plugins : Loaded → Page → Headers → Text → Action (Result Dict Text)
unfolding report
run_plugins loaded page headers body = do
  plugins ← lift loaded
  let found = collect plugins page headers body ([], [])
  names ← read (stale_names page found.0)
  write (remove_values page names)
  upsert_all page found.0
  pure (report found.0 found.1)

-- The literal parts of `<meta name="version" content="(\d+)">`.
abbrev version_open : Text
version_open = codes "<meta name=\"version\" content=\""

abbrev version_close : Text
version_close = codes "\">"

-- The text behind a literal that stands at its start.
behind : Text → Text → Option Text
behind [] text = some text
behind (c ∷ literal) [] = none
behind (c ∷ literal) (d ∷ text) = if c == d then behind literal text else none

-- The digits at the start, and what follows.
span_digits : Text → Text × Text
span_digits [] = ([], [])
span_digits (c ∷ s) = let r = span_digits s in if is_digit c then (c ∷ r.0, r.1) else ([], c ∷ s)

close_version : Text → Text → Option Text
unfolding behind
close_version [] rest = none
close_version (c ∷ digits) rest = elim (behind version_close rest) [
  | none ↦ none
  | some _ ↦ some (c ∷ digits)
]

match_version : Text → Option Text
unfolding behind span_digits is_digit close_version
match_version text = elim (behind version_open text) [
  | none ↦ none
  | some rest ↦ close_version (span_digits rest).0 (span_digits rest).1
]

or_later : Option Text → Option Text → Option Text
or_later none later = later
or_later (some v) later = some v

search_version : Text → Option Text
unfolding match_version or_later
search_version [] = match_version []
search_version (c ∷ s) = or_later (match_version (c ∷ s)) (search_version s)

version_entry : Option Text → Dict
version_entry none = []
version_entry (some version) = (codes "version", version) ∷ []

-- `process` of get_version.py.
unfoldable pub get_version_process : Plugin
unfolding search_version version_entry content_is_html
get_version_process page headers body =
    if content_is_html headers then gave (version_entry (search_version body)) else gave []

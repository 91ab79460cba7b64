-- ===== src/Plugins/Run.antt =====
-- What `_run_plugins` of src/spidercheck/core.py leaves: the values of the page are exactly those of
-- the dictionary that the plugins filled.
use spidercheck.Prelude.{
  ℕ, ◌≡◌, refl, ap, ◌∙◌, Bool, true, false, not, ◌&&◌, ◌++◌, codes, length-append, List, [], ◌∷◌,
  arith, Text, text_eq, text_eq_iff, any, keep, map, length, ◌==◌, ==_self, if◌then◌else◌, inl, inr,
  Bool-cases,
}
use spidercheck.Results.{Exc, returned, raised, Result, truth}
use spidercheck.Rows.Laws.{any-keep}
use spidercheck.Models.{Page, Value, Db}
use spidercheck.Tables.{has_id, is_value, delete_values}
use spidercheck.Tables.Consistent.{IsConsistent}
use spidercheck.Tables.Deletes.{delete_values-IsConsistent}
use spidercheck.Tables.Stored.{value_is}
use spidercheck.Values.Upsert.{upsert_lem}
use spidercheck.Values.Texts.{value_is-is_value}
use spidercheck.Core.{Headers}
use spidercheck.Plugins.{
  Dict, PluginRun, gave, threw, Plugin, Loaded, note_run, collect, has_key, stale_names,
  remove_values, upsert_all, report, run_plugins,
}

-- Whether the text is what a reader of the name gets: the last entry of the name, and the old
-- answer where there is none.
unfoldable pub entry_or : Dict → Text → Text → Bool → Bool
entry_or [] name text old = old
entry_or ((n, v) ∷ d) name text old =
    entry_or d name text (if text_eq n name then text_eq v text else old)

entry_or-has_key :
    (d : Dict) (name text : Text) (o o' : Bool)
    → has_key name d ≡ true
    → entry_or d name text o ≡ entry_or d name text o'
unfolding entry_or has_key any
entry_or-has_key [] name text o o' h = cc
entry_or-has_key ((n, v) ∷ d) name text o o' h = elim (Bool-cases (text_eq n name)) [
  | inl own ↦ rw own refl
  | inr other ↦ rw other (entry_or-has_key d name text o o' (rw other at h))
]

pub entry_or-no_key :
    (d : Dict) (name text : Text) (o : Bool) → has_key name d ≡ false → entry_or d name text o ≡ o
unfolding entry_or has_key any
entry_or-no_key [] name text o h = refl
entry_or-no_key ((n, v) ∷ d) name text o h = elim (Bool-cases (text_eq n name)) [
  | inl own ↦ ground arith
  | inr other ↦ rw other (entry_or-no_key d name text o (rw other at h))
]

-- The entries are written one after the other.
upsert_all_lem :
    (page : Page) (d : Dict) (db : Db)
    → IsConsistent db
    → any (has_id page.id_page) db.pages ≡ true
    → (after : Db) × (upsert_all page d db ≡ (returned tt, after))
      × IsConsistent after
      × (after.pages ≡ db.pages)
      × (after.links ≡ db.links)
      × (after.sites ≡ db.sites)
      × ((i : ℕ) (name text : Text)
          → any (value_is i name text) after.values ≡ (
              if page.id_page == i
              then entry_or d name text (any (value_is i name text) db.values)
              else any (value_is i name text) db.values))
unfolding upsert_all entry_or
upsert_all_lem page [] db c owner = (db, refl, c, refl, refl, refl, λ i name text. ground arith)
upsert_all_lem page ((n, v) ∷ d) db c owner =
    let (row, mid, run, kept, pages, links, sites, seen) = upsert_lem page.id_page n v db c owner in
    let (after, rest, kept', pages', links', sites', seen') =
      upsert_all_lem page d mid kept (rw pages owner) in
    (
      after,
      rw run rest,
      kept',
      pages' ∙ pages,
      links' ∙ links,
      sites' ∙ sites,
      λ i name text. elim (Bool-cases (page.id_page == i)) [
        | inl own ↦
            let a = seen' i name text in let b = seen i name text in rw own (rw (own, b, own) at a)
        | inr other ↦
            let a = seen' i name text in
            let b = seen i name text in rw other (rw (other, b, other) at a)
      ],
    )

named_of :
    (i : ℕ) (name : Text) (vs : List Value)
    → any (λ n. text_eq n name) (map (λ v. v.name) (keep (λ v. v.page == i) vs))
      ≡ any (is_value i name) vs
unfolding keep any
named_of i name [] = refl
named_of i name (v ∷ vs) = elim (Bool-cases (v.page == i)) [
  | inl own ↦ rw (own, named_of i name vs) refl
  | inr other ↦ rw (other, named_of i name vs) refl
]

any-stale_names :
    (page : Page) (d : Dict) (db : Db) (name : Text)
    → any (λ n. text_eq n name) (stale_names page d db)
      ≡ not (has_key name d) && any (is_value page.id_page name) db.values
unfolding stale_names
any-stale_names page d db name =
    any-keep (λ n. text_eq n name) (λ n. not (has_key n d)) (not (has_key name d))
      (map (λ v. v.name) (keep (λ v. v.page == page.id_page) db.values))
      (λ n h. let e : n ≡ name = ground (arith, text_eq_iff n name) in rw e refl)
    ∙ ap (λ (t : Bool). not (has_key name d) && t) (named_of page.id_page name db.values)

-- What a reader sees when the stale values are gone.
any-remove_values :
    (page : Page) (names : List Text) (db : Db) (i : ℕ) (name text : Text)
    → any (value_is i name text) (remove_values page names db).values
      ≡ not (if i == page.id_page then any (λ n. text_eq n name) names else false)
        && any (value_is i name text) db.values
unfolding remove_values delete_values
any-remove_values page names db i name text =
    any-keep (value_is i name text)
      (λ v. not (if v.page == page.id_page then any (λ n. text_eq n v.name) names else false))
      (not (if i == page.id_page then any (λ n. text_eq n name) names else false)) db.values
      λ v h.
        let e : v.page ≡ i = ground arith in
        let f : v.name ≡ name = ground (arith, text_eq_iff v.name name) in rw (e, f) refl

-- Old answers of names that are gone do not count any more.
entry_or-stale :
    (page : Page) (d : Dict) (db : Db) (name text : Text)
    → entry_or d name text (
        not (any (λ n. text_eq n name) (stale_names page d db))
        && any (value_is page.id_page name text) db.values)
      ≡ entry_or d name text false
entry_or-stale page d db name text = elim (Bool-cases (has_key name d)) [
  | inl key ↦ entry_or-has_key d name text _ _ key
  | inr no_key ↦ ap (entry_or d name text) (
      ground
        (arith, any-stale_names page d db name, value_is-is_value page.id_page name text db.values))
]

truth-report :
    (d : Dict) (failures : List Text) → truth (report d failures) ≡ (length failures == 0)
unfolding report
truth-report d [] = refl
truth-report d (f ∷ failures) = ground arith

-- Whether a plugin raises.
abbrev threw_it : PluginRun → Bool
threw_it (gave result) = false
threw_it (threw message) = true

abbrev pub throws : List (Text × Plugin) → Page → Headers → Text → Bool
throws plugins page headers body = any (λ p. threw_it (p.1 page headers body)) plugins

-- A failure is noted for each plugin that raises.
length-note_run :
    (name : Text) (r : PluginRun) (found : Dict × List Text)
    → (length (note_run name r found).1 == 0) ≡ (length found.1 == 0) && not (threw_it r)
unfolding note_run
length-note_run name (gave result) (d, failures) = ground arith
length-note_run name (threw message) (d, failures) =
    ground (arith, length-append failures ((name ++ (codes ": " ++ message)) ∷ []))

length-collect :
    (plugins : List (Text × Plugin)) (page : Page) (headers : Headers) (body : Text)
    (found : Dict × List Text)
    → (length (collect plugins page headers body found).1 == 0)
      ≡ (length found.1 == 0) && not (throws plugins page headers body)
unfolding collect any
length-collect [] page headers body found = ground arith
length-collect ((name, process) ∷ plugins) page headers body found =
    let r = process page headers body in
    length-collect plugins page headers body (note_run name r found)
    ∙ rw (length-note_run name r found) (ground arith)

-- With the plugins at hand, the run never raises.
pub run_loaded :
    (plugins : List (Text × Plugin)) (page : Page) (headers : Headers) (body : Text) (db : Db)
    → IsConsistent db
    → any (has_id page.id_page) db.pages ≡ true
    → (result : Result Dict Text) × (after : Db) × (run_plugins
          (returned plugins)
          page
          headers
          body
          db
        ≡ (returned result, after))
      × IsConsistent after
      × (after.pages ≡ db.pages)
      × (after.links ≡ db.links)
      × (after.sites ≡ db.sites)
      × ((i : ℕ) (name text : Text)
          → any (value_is i name text) after.values ≡ (
              if page.id_page == i
              then entry_or (collect plugins page headers body ([], [])).0 name text false
              else any (value_is i name text) db.values))
      × (truth result ≡ not (throws plugins page headers body))
unfolding run_plugins
run_loaded plugins page headers body db c owner =
    let d = (collect plugins page headers body ([], [])).0 in
    let stale = stale_names page d db in
    let mid = remove_values page stale db in
    let (after, run, kept, pages, links, sites, seen) =
      upsert_all_lem page d mid (unfold remove_values in delete_values-IsConsistent _ db c)
        (unfold remove_values delete_values in owner) in
    (
      report d (collect plugins page headers body ([], [])).1,
      after,
      rw run refl,
      kept,
      unfold remove_values delete_values in pages,
      unfold remove_values delete_values in links,
      unfold remove_values delete_values in sites,
      (λ i name text. elim (Bool-cases (page.id_page == i)) [
        | inl own ↦
            let e : page.id_page ≡ i = ground arith in
            let a = seen page.id_page name text in
            let b = any-remove_values page stale db page.id_page name text in
            let f = entry_or-stale page d db name text in
            rw (own, ← e) (rw (==_self page.id_page, b, ==_self page.id_page, f) at a)
        | inr other ↦
            let b = any-remove_values page stale db i name text in ground (arith, seen i name text)
      ]),
      truth-report d _ ∙ length-collect plugins page headers body ([], []),
    )

-- Whether the plugins could be loaded or not, the database stays consistent and keeps its pages.
pub run_plugins-IsConsistent :
    (loaded : Loaded) (page : Page) (headers : Headers) (body : Text) (db : Db)
    → IsConsistent db
    → any (has_id page.id_page) db.pages ≡ true
    → IsConsistent (run_plugins loaded page headers body db).1
      × ((run_plugins loaded page headers body db).1.pages ≡ db.pages)
run_plugins-IsConsistent (raised e) page headers body db c owner = unfold run_plugins in (c, refl)
run_plugins-IsConsistent (returned plugins) page headers body db c owner =
    let (result, after, ran, kept, pages, links, sites, values, told) =
      run_loaded plugins page headers body db c owner in
    rw ran (kept, pages)

-- If an import of the registry raises, `_run_plugins` raises the same and leaves the database as it was.
-- If the registry gives its plugins, then for a page of a consistent database `_run_plugins`
-- returns, keeps the database consistent, and leaves the pages, the links and the sites alone. Afterwards the
-- page has exactly the values of the dictionary that the plugins filled, the last entry of a name
-- being its value; other pages have the values they had; and the result is true exactly if no
-- plugin raises.
pub run_plugins_lem :
    (plugins : List (Text × Plugin)) (page : Page) (headers : Headers) (body : Text) (db : Db)
    → IsConsistent db
    → any (has_id page.id_page) db.pages ≡ true
    → ((e : Exc) → run_plugins (raised e) page headers body db ≡ (raised e, db))
      × ((result : Result Dict Text) × (after : Db) × (run_plugins
              (returned plugins)
              page
              headers
              body
              db
            ≡ (returned result, after))
          × IsConsistent after
          × (after.pages ≡ db.pages)
          × (after.links ≡ db.links)
          × (after.sites ≡ db.sites)
          × ((i : ℕ) (name text : Text)
              → any (value_is i name text) after.values ≡ (
                  if page.id_page == i
                  then entry_or (collect plugins page headers body ([], [])).0 name text false
                  else any (value_is i name text) db.values))
          × (truth result ≡ not (throws plugins page headers body)))
run_plugins_lem plugins page headers body db c owner =
    (λ e. unfold run_plugins in refl, run_loaded plugins page headers body db c owner)

-- ===== src/Plugins/Refines.antt =====
-- `_run_plugins` of src/spidercheck/core.py against what it is for: the entries that the plugins give,
-- in the order in which they run, are the map of the page, a later entry over an earlier one.
use spidercheck.Prelude.{
  ◌≡◌, refl, sym, ◌∙◌, ap, fun_ext, true, false, ◌||◌, List, [], ◌∷◌, ◌++◌, Option, none, some,
  Text, text_eq, text_eq_iff, arith, any, ◌==◌, if◌then◌else◌, inl, inr, Bool-cases,
}
use spidercheck.Results.{returned}
use spidercheck.Models.{Page, Db}
use spidercheck.Tables.{has_id}
use spidercheck.Tables.Consistent.{IsConsistent}
use spidercheck.Values.Texts.{texts_of, holds, holds-ext, holds-texts_of}
use spidercheck.Core.{Headers}
use spidercheck.Plugins.{
  Dict, PluginRun, gave, threw, Plugin, dict_put, dict_update, has_key, note_run, collect,
  run_plugins,
}
use spidercheck.Plugins.Run.{entry_or, entry_or-no_key, run_loaded}

-- The specification: all entries that the plugins give, in order.
abbrev pub entries_in : PluginRun → Dict
entries_in (gave result) = result
entries_in (threw message) = []

unfoldable pub entries : List (Text × Plugin) → Page → Headers → Text → Dict
entries [] page headers body = []
entries ((name, process) ∷ plugins) page headers body =
    entries_in (process page headers body) ++ entries plugins page headers body

-- The last entry of a name, or what there was before.
unfoldable pub last_entry : Dict → Text → Option Text → Option Text
last_entry [] n old = old
last_entry ((k, v) ∷ d) n old = last_entry d n (if text_eq k n then some v else old)

pub last_entry-append :
    (d e : Dict) (n : Text) (old : Option Text)
    → last_entry (d ++ e) n old ≡ last_entry e n (last_entry d n old)
unfolding last_entry
last_entry-append [] e n old = refl
last_entry-append ((k, v) ∷ d) e n old =
    last_entry-append d e n (if text_eq k n then some v else old)

-- `d[name]`
dict_get : Dict → Text → Option Text
dict_get [] n = none
dict_get ((k, v) ∷ d) n = if text_eq k n then some v else dict_get d n

dict_get-dict_put :
    (name value : Text) (d : Dict) (n : Text)
    → dict_get (dict_put name value d) n ≡ (if text_eq name n then some value else dict_get d n)
unfolding dict_get dict_put
dict_get-dict_put name value [] n = refl
dict_get-dict_put name value ((k, v) ∷ d) n = elim (Bool-cases (text_eq k name)) [
  | inl own ↦
      let e : k ≡ name = ground (arith, text_eq_iff k name) in
      rw (own, e)
        (elim (Bool-cases (text_eq name n)) [ inl hit ↦ rw hit refl | inr miss ↦ rw miss refl ])
  | inr other ↦ elim (Bool-cases (text_eq name n)) [
    | inl hit ↦
        let e : name ≡ n = ground (arith, text_eq_iff name n) in
        let miss : text_eq k n ≡ false = rw e at other in
        rw (other, dict_get-dict_put name value d n, hit, miss) refl
    | inr miss ↦ rw (other, dict_get-dict_put name value d n, miss) refl
  ]
]

dict_get-dict_update :
    (d more : Dict) (n : Text) → dict_get (dict_update d more) n ≡ last_entry more n (dict_get d n)
unfolding dict_update last_entry
dict_get-dict_update d [] n = refl
dict_get-dict_update d ((name, value) ∷ more) n =
    dict_get-dict_update (dict_put name value d) more n
    ∙ ap (last_entry more n) (dict_get-dict_put name value d n)

dict_get-note_run :
    (name : Text) (r : PluginRun) (d : Dict) (failures : List Text) (n : Text)
    → dict_get (note_run name r (d, failures)).0 n ≡ last_entry (entries_in r) n (dict_get d n)
unfolding note_run last_entry
dict_get-note_run name (gave result) d failures n = dict_get-dict_update d result n
dict_get-note_run name (threw message) d failures n = refl

dict_get-collect :
    (plugins : List (Text × Plugin)) (page : Page) (headers : Headers) (body : Text) (d : Dict)
    (failures : List Text) (n : Text)
    → dict_get (collect plugins page headers body (d, failures)).0 n
      ≡ last_entry (entries plugins page headers body) n (dict_get d n)
unfolding collect entries last_entry
dict_get-collect [] page headers body d failures n = refl
dict_get-collect ((name, process) ∷ plugins) page headers body d failures n =
    let r = process page headers body in
    let (found, failures') = note_run name r (d, failures) in
    dict_get-collect plugins page headers body found failures' n
    ∙ ap (last_entry (entries plugins page headers body) n) (dict_get-note_run name r d failures n)
    ∙ sym (last_entry-append (entries_in r) (entries plugins page headers body) n (dict_get d n))

-- No name twice.
Distinct : Dict → Type 0
Distinct [] = Unit
Distinct ((k, v) ∷ d) = (has_key k d ≡ false) × Distinct d

has_key-dict_put :
    (name value : Text) (d : Dict) (k : Text)
    → has_key k (dict_put name value d) ≡ text_eq name k || has_key k d
unfolding has_key dict_put any
has_key-dict_put name value [] k = refl
has_key-dict_put name value ((n, v) ∷ d) k = elim (Bool-cases (text_eq n name)) [
  | inl own ↦ let e : n ≡ name = ground (arith, text_eq_iff n name) in rw (own, e) (ground arith)
  | inr other ↦ rw (other, has_key-dict_put name value d k) (ground arith)
]

dict_put-Distinct : (name value : Text) (d : Dict) → Distinct d → Distinct (dict_put name value d)
unfolding dict_put Distinct
dict_put-Distinct name value [] h = (unfold has_key any in refl, tt)
dict_put-Distinct name value ((n, v) ∷ d) h = elim (Bool-cases (text_eq n name)) [
  | inl own ↦ rw own h
  | inr other ↦ rw other (
    ground (arith, has_key-dict_put name value d n, text_eq_iff n name, text_eq_iff name n, h.0),
    dict_put-Distinct name value d h.1,
  )
]

dict_update-Distinct : (d more : Dict) → Distinct d → Distinct (dict_update d more)
unfolding dict_update
dict_update-Distinct d [] h = h
dict_update-Distinct d ((name, value) ∷ more) h =
    dict_update-Distinct (dict_put name value d) more (dict_put-Distinct name value d h)

note_run-Distinct :
    (name : Text) (r : PluginRun) (d : Dict) (failures : List Text)
    → Distinct d
    → Distinct (note_run name r (d, failures)).0
unfolding note_run
note_run-Distinct name (gave result) d failures h = dict_update-Distinct d result h
note_run-Distinct name (threw message) d failures h = h

collect-Distinct :
    (plugins : List (Text × Plugin)) (page : Page) (headers : Headers) (body : Text) (d : Dict)
    (failures : List Text)
    → Distinct d
    → Distinct (collect plugins page headers body (d, failures)).0
unfolding collect
collect-Distinct [] page headers body d failures h = h
collect-Distinct ((name, process) ∷ plugins) page headers body d failures h =
    let r = process page headers body in
    let (found, failures') = note_run name r (d, failures) in
    collect-Distinct plugins page headers body found failures'
      (note_run-Distinct name r d failures h)

-- Where no name comes twice, the last entry of a name is the entry.
entry_or-dict_get :
    (d : Dict) (n t : Text) → Distinct d → entry_or d n t false ≡ holds (dict_get d n) t
unfolding entry_or dict_get Distinct
entry_or-dict_get [] n t h = refl
entry_or-dict_get ((k, v) ∷ d) n t h = elim (Bool-cases (text_eq k n)) [
  | inl own ↦
      let e : k ≡ n = ground (arith, text_eq_iff k n) in
      let bare : has_key n d ≡ false = rw e at h.0 in
      rw own (entry_or-no_key d n t (text_eq v t) bare)
  | inr other ↦ rw other (entry_or-dict_get d n t h.1)
]

-- For a page of a consistent database, `_run_plugins` with the plugins at hand does this to the map from pages and names to
-- texts: the page's entries are replaced by those that the plugins give in the order in which they
-- run, a later entry over an earlier one of the same name; other pages keep their entries.
pub run_plugins-refines :
    (plugins : List (Text × Plugin)) (page : Page) (headers : Headers) (body : Text) (db : Db)
    → IsConsistent db
    → any (has_id page.id_page) db.pages ≡ true
    → texts_of (run_plugins (returned plugins) page headers body db).1 ≡ λ i n.
        if page.id_page == i
        then last_entry (entries plugins page headers body) n none
        else texts_of db i n
unfolding Distinct dict_get
run_plugins-refines plugins page headers body db c owner =
    let (result, after, run, kept, pages, links, sites, seen, told) =
      run_loaded plugins page headers body db c owner in
    let d = (collect plugins page headers body ([], [])).0 in
    fun_ext λ i. fun_ext λ n. holds-ext _ _ λ t. rw run (
      holds-texts_of after i n t kept ∙ seen i n t ∙ elim (Bool-cases (page.id_page == i)) [
        | inl own ↦ rw own (
            entry_or-dict_get d n t (collect-Distinct plugins page headers body [] [] tt)
            ∙ ap (λ o. holds o t) (dict_get-collect plugins page headers body [] [] n))
        | inr other ↦ rw other (sym (holds-texts_of db i n t c))
      ])

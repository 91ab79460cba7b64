-- ===== src/Plugins/Titles.antt =====
-- The plugin get_title.py, run by `_run_plugins` of src/spidercheck/core.py, and the reader of the title.
use spidercheck.Prelude.{
  ◌≡◌, refl, sym, ◌∙◌, ap, true, false, List, [], ◌∷◌, ◌++◌, append-nil, Option, none, Text, codes,
  text_eq, any, All, arith, ==_self, inl, inr, Bool-cases, Option-cases,
}
use spidercheck.Prelude.Chars.{strip}
use spidercheck.Results.{returned}
use spidercheck.Seq.{first}
use spidercheck.Models.{Page, Db}
use spidercheck.Tables.{has_id}
use spidercheck.Tables.Consistent.{IsConsistent}
use spidercheck.Values.{get_title, no_value}
use spidercheck.Values.Texts.{or_text, get_value-or_text}
use spidercheck.Core.{Headers, content_is_html}
use spidercheck.Plugins.{
  Dict, Plugin, has_key, version_entry, search_version, get_version_process, run_plugins,
}
use spidercheck.Plugins.Documents.{Soup, get_title_process, title_entry}
use spidercheck.Plugins.Refines.{
  entries, entries_in, last_entry, last_entry-append, run_plugins-refines,
}

-- What the reader gives for the titles of a text.
abbrev pub title_or : List Text → Text
title_or [] = no_value
title_or (t ∷ titles) = strip t

-- These plugins give no title.
abbrev pub AreSilent : List (Text × Plugin) → Page → Headers → Text → Type 0
AreSilent plugins page headers body =
    All (λ p. has_key (codes "title") (entries_in (p.1 page headers body)) ≡ false) plugins

-- The plugin get_version.py gives no title.
pub get_version-AreSilent :
    (name : Text) (page : Page) (headers : Headers) (body : Text)
    → AreSilent ((name, get_version_process) ∷ []) page headers body
unfolding get_version_process has_key any text_eq version_entry
get_version-AreSilent name page headers body = elim (Bool-cases (content_is_html headers)) [
  | inr other ↦ rw other (refl, tt)
  | inl html ↦ elim (Option-cases (search_version body)) [
    | inl no_version ↦ rw (html, no_version) (refl, tt)
    | inr (version, found) ↦ rw (html, found) (refl, tt)
  ]
]

last_entry-no_key :
    (d : Dict) (n : Text) (old : Option Text) → has_key n d ≡ false → last_entry d n old ≡ old
unfolding last_entry has_key any
last_entry-no_key [] n old h = refl
last_entry-no_key ((k, v) ∷ d) n old h = elim (Bool-cases (text_eq k n)) [
  | inl own ↦ absurd (ground arith)
  | inr other ↦ rw other (last_entry-no_key d n old (ground arith))
]

last-title_entry :
    (titles : List Text)
    → or_text
        (last_entry (title_entry (first titles (λ t. true) none)) (codes "title") none)
        no_value
      ≡ title_or titles
unfolding last_entry title_entry first text_eq
last-title_entry [] = refl
last-title_entry (t ∷ titles) = refl

module _ (soup_of : Text → Soup) (page : Page) (headers : Headers) (body : Text) where
  last_entry-silent :
      (plugins rest : List (Text × Plugin)) (old : Option Text)
      → AreSilent plugins page headers body
      → last_entry (entries (plugins ++ rest) page headers body) (codes "title") old
        ≡ last_entry (entries rest page headers body) (codes "title") old
  unfolding entries
  last_entry-silent [] rest old h = refl
  last_entry-silent ((name, process) ∷ plugins) rest old h =
      last_entry-append (entries_in (process page headers body)) _ (codes "title") old
      ∙ ap (last_entry (entries (plugins ++ rest) page headers body) (codes "title"))
          (last_entry-no_key (entries_in (process page headers body)) (codes "title") old h.0)
      ∙ last_entry-silent plugins rest old h.1

  -- The plugins with get_title.py among them.
  abbrev pub with_title : List (Text × Plugin) → List (Text × Plugin) → List (Text × Plugin)
  with_title before after = before ++ (codes "get_title", get_title_process soup_of) ∷ after

  last-title :
      (before after : List (Text × Plugin))
      → AreSilent before page headers body
      → AreSilent after page headers body
      → or_text
          (last_entry (entries (with_title before after) page headers body) (codes "title") none)
          no_value
        ≡ title_or (soup_of body).titles
  unfolding entries get_title_process
  last-title before after h k =
      ap (λ o. or_text o no_value)
        (last_entry-silent before ((codes "get_title", get_title_process soup_of) ∷ after) none h
          ∙ last_entry-append (title_entry (first (soup_of body).titles (λ t. true) none)) _
              (codes "title") none
          ∙ ap
              (λ ps. last_entry (entries ps page headers body) (codes "title") (
                last_entry (title_entry (first (soup_of body).titles (λ t. true) none))
                  (codes "title") none))
              (sym (append-nil after))
          ∙ last_entry-silent after [] _ k)
      ∙ unfold last_entry in last-title_entry (soup_of body).titles

  -- If get_title.py is among the plugins that run, and the others give no value of the name `title` for
  -- the page, then after `_run_plugins` for a page of a consistent database `Page.get_title` gives
  -- the first title of the text without the blanks around it, and where the text has no title, the
  -- default, whatever title the page had before.
  pub get_title_process_lem :
      (before after : List (Text × Plugin)) (db : Db)
      → AreSilent before page headers body
      → AreSilent after page headers body
      → IsConsistent db
      → any (has_id page.id_page) db.pages ≡ true
      → get_title page (run_plugins (returned (with_title before after)) page headers body db).1
        ≡ title_or (soup_of body).titles
  unfolding get_title
  get_title_process_lem before after db h k c owner =
      let plugins = with_title before after in
      let left = (run_plugins (returned plugins) page headers body db).1 in
      let e =
        ap (λ m. m page.id_page (codes "title"))
          (run_plugins-refines plugins page headers body db c owner) in
      get_value-or_text page (codes "title") no_value left
      ∙ ap (λ o. or_text o no_value) e
      ∙ rw (==_self page.id_page) (last-title before after h k)

-- ===== src/Crawl/Html.antt =====
-- The branch of `check_page` of src/spidercheck/core.py for a page of HTML: what the links and the
-- values of the page are afterwards.
use spidercheck.Prelude.{
  ℕ, ◌≡◌, refl, ap, ◌∙◌, Bool, true, false, ◌↔◌, List, [], none, Text, text_eq, All, any, ◌==◌,
  if◌then◌else◌,
}
use spidercheck.Results.{returned, success, truth}
use spidercheck.Models.{Site, Page, Value, Db}
use spidercheck.Tables.{has_id, is_link}
use spidercheck.Tables.Consistent.{IsConsistent}
use spidercheck.Tables.Stored.{value_is}
use spidercheck.Urls.{UrlLib}
use spidercheck.Parser.{Tag}
use spidercheck.WebParser.{is_valid_html}
use spidercheck.Pages.{Yields}
use spidercheck.Core.{Headers}
use spidercheck.Core.Links.{IsAt, Parses, Reaches}
use spidercheck.Core.Update.{update_links_lem, update_links-IsConsistent, update_links-values}
use spidercheck.Plugins.{Plugin, collect}
use spidercheck.Plugins.Run.{entry_or, run_loaded}
use spidercheck.Crawl.{Visit, full_message, links_in, process_html}

-- Where a link leads to is a matter of the pages alone.
Reaches-same_pages :
    (urls : UrlLib) (s : Site) (mid after : Db) (u : Text) (b : ℕ)
    → after.pages ≡ mid.pages
    → Reaches urls s mid u b ↔ Reaches urls s after u b
Reaches-same_pages urls s mid after u b e = (
  λ r. record {
    info = r.info;
    target = r.target;
    parsed = r.parsed;
    row = λ t h. rw e (r.row t h);
    place = r.place;
    linkable = r.linkable;
  },
  λ r. record {
    info = r.info;
    target = r.target;
    parsed = r.parsed;
    row = λ t h. rw e at (r.row t h);
    place = r.place;
    linkable = r.linkable;
  },
)

module _ (urls : UrlLib) (tags_of : Text → List Tag) (plugins : List (Text × Plugin)) (s : Site)
    (page : Page) (headers : Headers) (body : Text) where
  -- What the branch leaves: the page, its links, its values, and those of the others.
  pub record IsCrawled (yields : Yields) (db after : Db) : Type 0 where
    pub consistent : IsConsistent after
    pub row : any (has_id page.id_page) after.pages ≡ true
    pub links :
        (b : ℕ)
        → (any (is_link page.id_page b) after.links ≡ true)
          ↔ ((u : Text) × (any (text_eq u) yields.0 ≡ true) × Reaches urls s after u b)
    pub other_links :
        (a b : ℕ)
        → (page.id_page == a) ≡ false
        → any (is_link a b) after.links ≡ any (is_link a b) db.links
    pub values :
        (i : ℕ) (name text : Text)
        → any (value_is i name text) after.values ≡ (
            if page.id_page == i
            then entry_or (collect plugins page headers body ([], [])).0 name text false
            else any (value_is i name text) db.values)

  -- The branch of `check_page` for HTML of the site: if the page is a row of a consistent database that holds its
  -- site, the text is HTML, and the links of the text are yielded without an exception and can be
  -- parsed, then the branch succeeds with the registry's plugins, whatever they do. Afterwards the database is
  -- consistent and still has the page; the page links to exactly the pages of the site that accept links and that
  -- a yielded link leads to; it has exactly the values that the plugins gave; and links and values
  -- of other pages are as they were.
  pub process_html-IsCrawled :
      (v : Visit) (url : Text) (db : Db)
      → IsConsistent db
      → IsAt s page db
      → is_valid_html body ≡ true
      → (links_in urls tags_of (returned plugins) s page v body).1 ≡ none
      → All (Parses urls) (links_in urls tags_of (returned plugins) s page v body).0
      → (message : Text) × (after : Db) × (process_html urls tags_of
            (returned plugins)
            s
            page
            url
            v
            (headers, body)
            db
          ≡ (returned (success message), after))
        × IsCrawled (links_in urls tags_of (returned plugins) s page v body) db after
  unfolding process_html
  process_html-IsCrawled v url db c at html done parse =
      let yields = links_in urls tags_of (returned plugins) s page v body in
      let (removed, added, later, run, links, others, gone, came) =
        update_links_lem urls s page v.now yields db c at done parse in
      let (kept, stays) = update_links-IsConsistent urls s page v.now yields db c at in
      let values' : later.values ≡ db.values =
        rw run at (update_links-values urls s page v.now yields db c at) in
      let kept' : IsConsistent later = rw run at kept in
      let stays' : (t : Page → Bool) → any t db.pages ≡ true → any t later.pages ≡ true =
        rw run at stays in
      let (result, after, ran, kept2, pages, links2, sites, values, told) =
        run_loaded plugins page headers body later kept' (stays' _ at.row) in
      (
        full_message url added removed (truth result),
        after,
        rw (html, run, ran) refl,
        record {
          consistent = kept2;
          row = rw pages (stays' _ at.row);
          links = λ b. (
            λ h.
                let (u, here, r) = (links b).0 (rw links2 at h) in
                (u, here, (Reaches-same_pages urls s later after u b pages).0 r),
            λ (u, here, r).
                rw links2
                  ((links b).1 (u, here, (Reaches-same_pages urls s later after u b pages).1 r)),
          );
          other_links = λ a b ne. ap (any (is_link a b)) links2 ∙ others a b ne;
          values = λ i name text.
              values i name text
              ∙ ap
                  (λ (vs : List Value).
                    if page.id_page == i
                    then entry_or (collect plugins page headers body ([], [])).0 name text false
                    else any (value_is i name text) vs)
                  values';
        },
      )

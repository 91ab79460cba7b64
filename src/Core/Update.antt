-- ===== src/Core/Update.antt =====
-- What `_update_links` of src/spidercheck/core.py leaves: the links of the page are exactly those
-- that its text has, and what it returns is the difference.
use spidercheck.Prelude.{
  ℕ, ◌≡◌, refl, sym, ap, ◌∙◌, Bool, true, false, not, ◌&&◌, ◌||◌, ◌↔◌, List, [], ◌∷◌, none, arith,
  Text, text_eq, All, any, keep, map, ◌==◌, if◌then◌else◌, inl, inr, Bool-cases, Option-cases,
  ==_self,
}
use spidercheck.Results.{returned, Outcome-cases}
use spidercheck.Rows.{member, difference}
use spidercheck.Rows.Laws.{any-keep, member-set_of, member-difference, member-nil, member-cons}
use spidercheck.Models.{Site, Page, Link, Db}
use spidercheck.Tables.{is_link, delete_links}
use spidercheck.Tables.Consistent.{IsConsistent}
use spidercheck.Tables.Deletes.{delete_links-IsConsistent}
use spidercheck.Urls.{UrlLib}
use spidercheck.Pages.{Yields, outgoing_links}
use spidercheck.Core.{scan_links, remove_links, targets_of, update_links}
use spidercheck.Core.Links.{IsAt, Parses, Reaches}
use spidercheck.Core.Scan.{Scanned, scan_links-Scanned}

member-targets :
    (a b : ℕ) (links : List Link)
    → member b (map (λ l. l.to_page) (keep (λ l. l.from_page == a) links)) ≡ any (is_link a b) links
unfolding keep any
member-targets a b [] = member-nil b
member-targets a b (l ∷ links) = elim (Bool-cases (l.from_page == a)) [
  | inl own ↦ rw own (
      member-cons b l.to_page (map (λ x. x.to_page) (keep (λ x. x.from_page == a) links))
      ∙ ap (λ (t : Bool). l.to_page == b || t) (member-targets a b links))
  | inr other ↦ rw other (member-targets a b links)
]

member-targets_of :
    (page : Page) (db : Db) (b : ℕ)
    → member b (targets_of page db) ≡ any (is_link page.id_page b) db.links
unfolding targets_of
member-targets_of page db b = ground (
  arith,
  member-set_of b [] (map (λ l. l.to_page) (outgoing_links page db)),
  member-nil b,
  member-targets page.id_page b db.links,
)

any-remove_links :
    (page : Page) (gone : List ℕ) (db : Db) (a b : ℕ)
    → any (is_link a b) (remove_links page gone db).links
      ≡ not (if a == page.id_page then member b gone else false) && any (is_link a b) db.links
unfolding remove_links
any-remove_links page gone db a b =
    any-keep (is_link a b)
      (λ l. not (if l.from_page == page.id_page then member l.to_page gone else false))
      (not (if a == page.id_page then member b gone else false)) db.links
      λ l h.
        let e : l.from_page ≡ a = ground arith in
        let f : l.to_page ≡ b = ground arith in rw (e, f) refl

remove_links-IsConsistent :
    (page : Page) (gone : List ℕ) (db : Db)
    → IsConsistent db
    → IsConsistent (remove_links page gone db)
unfolding remove_links
remove_links-IsConsistent page gone db c = delete_links-IsConsistent _ db c

remove_links-pages :
    (page : Page) (gone : List ℕ) (db : Db) → (remove_links page gone db).pages ≡ db.pages
unfolding remove_links
remove_links-pages page gone db = refl

-- A link that leads to a page leads to it after links went.
Reaches-remove_links :
    (urls : UrlLib) (s : Site) (page : Page) (gone : List ℕ) (db : Db) (u : Text) (b : ℕ)
    → Reaches urls s db u b ↔ Reaches urls s (remove_links page gone db) u b
unfolding remove_links
Reaches-remove_links urls s page gone db u b = (
  λ r. record {
    info = r.info;
    target = r.target;
    parsed = r.parsed;
    row = r.row;
    place = r.place;
    linkable = r.linkable;
  },
  λ r. record {
    info = r.info;
    target = r.target;
    parsed = r.parsed;
    row = r.row;
    place = r.place;
    linkable = r.linkable;
  },
)

module _ (urls : UrlLib) (s : Site) (page : Page) (now : ℕ) (yields : Yields) (db : Db) where
  scanned :
      IsConsistent db
      → IsAt s page db
      → Scanned urls s page yields.0 []
          (λ b. any (is_link page.id_page b) db.links)
          db
          (scan_links urls s page now yields.0 [] db).0
          (scan_links urls s page now yields.0 [] db).1
  scanned c at =
      scan_links-Scanned urls s page now yields.0 [] (λ b. any (is_link page.id_page b) db.links) db
        c at λ b. ground (arith, member-nil b)

  -- Whatever the links, and wherever the run stops, the database stays consistent and keeps its
  -- pages.
  pub update_links-IsConsistent :
      IsConsistent db
      → IsAt s page db
      → IsConsistent (update_links urls s page now yields db).1
        × ((t : Page → Bool)
            → any t db.pages ≡ true
            → any t (update_links urls s page now yields db).1.pages ≡ true)
  unfolding update_links
  update_links-IsConsistent c at =
      let sc = scanned c at in
      elim (Outcome-cases (scan_links urls s page now yields.0 [] db).0) [
        | inr (e, stop) ↦ rw stop (sc.consistent, sc.stays)
        | inl (found, run) ↦
            let gone = difference (targets_of page db) found in
            let mid = (scan_links urls s page now yields.0 [] db).1 in
            elim (Option-cases yields.1) [
              | inr (e, stop) ↦ rw (run, stop) (sc.consistent, sc.stays)
              | inl done ↦
                  rw (run, done)
                    (
                      remove_links-IsConsistent page gone mid sc.consistent,
                      λ t h. rw remove_links-pages (sc.stays t h),
                    )
            ]
      ]

  -- The values are untouched, wherever the run stops.
  pub update_links-values :
      IsConsistent db
      → IsAt s page db
      → (update_links urls s page now yields db).1.values ≡ db.values
  unfolding update_links remove_links scan_links delete_links
  update_links-values c at =
      let sc = scanned c at in
      elim (Outcome-cases (scan_links urls s page now yields.0 [] db).0) [
        | inr (e, stop) ↦ rw stop sc.same_values
        | inl (found, run) ↦ elim (Option-cases yields.1) [
          | inr (e, stop) ↦ rw (run, stop) sc.same_values
          | inl done ↦ rw (run, done) sc.same_values
        ]
      ]

  -- On a consistent database that holds the page and its site: if the generator ends without an
  -- exception and every link that it yields can be parsed, `_update_links` returns, and afterwards
  -- the page links to exactly the pages of the site that accept links and that a yielded link
  -- leads to; the links of other pages are as before; and the two sets returned are the targets
  -- that went and the targets that came.
  pub update_links_lem :
      IsConsistent db
      → IsAt s page db
      → yields.1 ≡ none
      → All (Parses urls) yields.0
      → (removed added : List ℕ) × (after : Db) × (update_links urls s page now yields db
          ≡ (returned (removed, added), after))
        × ((b : ℕ)
            → (any (is_link page.id_page b) after.links ≡ true)
              ↔ ((u : Text) × (any (text_eq u) yields.0 ≡ true) × Reaches urls s after u b))
        × ((a b : ℕ)
            → (page.id_page == a) ≡ false
            → any (is_link a b) after.links ≡ any (is_link a b) db.links)
        × ((b : ℕ)
            → member b removed
              ≡ any (is_link page.id_page b) db.links
                && not (any (is_link page.id_page b) after.links))
        × ((b : ℕ)
            → member b added
              ≡ any (is_link page.id_page b) after.links
                && not (any (is_link page.id_page b) db.links))
  unfolding update_links
  update_links_lem c at done parse =
      let sc = scanned c at in
      let (found, run) = sc.total parse in
      let before = targets_of page db in
      let mid = (scan_links urls s page now yields.0 [] db).1 in
      let gone = difference before found in
      let after = remove_links page gone mid in
      let now_linked : (b : ℕ) → any (is_link page.id_page b) after.links ≡ member b found = λ b.
        ground (
          arith,
          any-remove_links page gone mid page.id_page b,
          member-difference b before found,
          member-targets_of page db b,
          sc.targets found run b,
          ==_self page.id_page,
        ) in
      (
        gone,
        difference found before,
        after,
        rw (run, done),
        λ b. (
          λ h. elim ((sc.exact found run b).0 (sym (now_linked b) ∙ h)) [
            | inl none_left ↦ cc (member-nil b)
            | inr (u, here, r) ↦ (u, here, (Reaches-remove_links urls s page gone mid u b).0 r)
          ],
          λ h.
              now_linked b
              ∙ (sc.exact found run b).1
                  (inr (h.0, h.1, (Reaches-remove_links urls s page gone mid h.0 b).1 h.2)),
        ),
        λ a b ne. ground (arith, any-remove_links page gone mid a b, sc.others a b ne),
        λ b.
            ground
              (arith, member-difference b before found, member-targets_of page db b, now_linked b),
        λ b.
            ground
              (arith, member-difference b found before, member-targets_of page db b, now_linked b),
      )

-- ===== src/Crawl/Starts.antt =====
-- `init_site` and `reset_site` of src/spidercheck/core.py on every branch.
use spidercheck.Prelude.{
  ℕ, ◌≡◌, refl, true, arith, Text, any, any-snoc, ==_self, inl, inr, Option-cases,
}
use spidercheck.Results.{Outcome, returned, raised, Outcome-cases}
use spidercheck.Rows.Among.{keep-Among, first_row-Among}
use spidercheck.Models.{Site, Db}
use spidercheck.Action.{pure, resume}
use spidercheck.Tables.{in_site, has_site_id, is_named, insert_site, insert_page, delete_pages}
use spidercheck.Tables.Consistent.{IsConsistent}
use spidercheck.Tables.Inserts.{insert_page-IsConsistent}
use spidercheck.Tables.Seeds.{insert_site-IsConsistent}
use spidercheck.Tables.Deletes.{delete_pages-IsConsistent}
use spidercheck.Urls.{UrlLib}
use spidercheck.Sites.{load_site_by_name, add_page}
use spidercheck.Sites.Pages.{load_or_create-Loads}
use spidercheck.Crawl.{make_site, init_site, new_site, seed_page, empty_site, reset_site}

-- A last step that only returns leaves the database alone.
resume-pure : {A B : Type 0} (o : Outcome A) (b : B) (db : Db) → (resume o (λ _. pure b) db).1 ≡ db
resume-pure (returned a) b db = refl
resume-pure (raised e) b db = refl

-- The site that was inserted is a row.
insert_site-owner :
    (s row : Site) (db : Db)
    → (insert_site s db).0 ≡ returned row
    → any (has_site_id row.id_site) (insert_site s db).1.sites ≡ true
unfolding insert_site
insert_site-owner s row db h = ground (
  arith,
  any-snoc (has_site_id db.next_site) db.sites (record s { id_site = db.next_site }),
  ==_self db.next_site,
)

module _ (urls : UrlLib) (name : Text) (now : ℕ) (db : Db) (c : IsConsistent db) where
  pub init_site-IsConsistent : (url : Text) → IsConsistent (init_site urls url name now db).1
  unfolding init_site make_site
  init_site-IsConsistent url = elim (Option-cases (load_site_by_name name db)) [
    | inr (old, found) ↦ rw found c
    | inl unknown ↦ elim (Outcome-cases (urls.urlparse url)) [
      | inr (x, stop) ↦ rw (unknown, stop) c
      | inl (info, parsed) ↦
          let new = new_site urls name info now in
          let kept = insert_site-IsConsistent new db c in
          elim (Outcome-cases (insert_site new db).0) [
            | inr (x, stop) ↦ rw (unknown, parsed, stop) kept
            | inl (s, made) ↦
                let owner = insert_site-owner new s db made in
                let mid = (insert_site new db).1 in
                let p = seed_page urls s info now in
                rw
                  (unknown, parsed, made, resume-pure (insert_page p mid).0 s (insert_page p mid).1)
                  (insert_page-IsConsistent p mid kept (unfold seed_page in owner))
          ]
    ]
  ]

  pub reset_site-IsConsistent : IsConsistent (reset_site urls name now db).1
  unfolding reset_site empty_site add_page
  reset_site-IsConsistent = elim (Option-cases (load_site_by_name name db)) [
    | inl unknown ↦ rw unknown c
    | inr (s, found) ↦
        let mid = delete_pages (in_site s.id_site) db in
        let kept : IsConsistent mid = delete_pages-IsConsistent (in_site s.id_site) db c in
        let owner : any (has_site_id s.id_site) mid.sites ≡ true =
          unfold delete_pages load_site_by_name in
          (keep-Among (is_named name) db.sites s (first_row-Among _ s found)).0
            (has_site_id s.id_site) (==_self s.id_site) in
        elim (Outcome-cases (urls.urlparse s.path)) [
          | inr (x, stop) ↦ rw (found, stop) kept
          | inl (info, parsed) ↦
              let (page, created, after, run, l) =
                load_or_create-Loads s info.path info.query mid now kept owner in
              rw (found, parsed, run) l.consistent
        ]
  ]

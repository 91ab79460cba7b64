-- ===== src/Core/Scan.antt =====
-- The loop of `_update_links` of src/spidercheck/core.py over the links that a page yields.
use spidercheck.Prelude.{
  ℕ, ◌≡◌, refl, ◌∙◌, ap, Bool, true, false, ◌&&◌, ◌||◌, List, [], ◌∷◌, arith, Text, text_eq,
  text_eq_iff, text_eq_self, ◌↔◌, ◌⊎◌, All, any, ◌==◌, inl, inr, Bool-cases,
}
use spidercheck.Results.{Exc, Outcome, returned, raised, Outcome-cases}
use spidercheck.Rows.{member}
use spidercheck.Rows.Among.{Among, Among-unique}
use spidercheck.Models.{Site, Page, Link, Db}
use spidercheck.Tables.{has_id, at_url, is_link, has_site_id}
use spidercheck.Tables.Consistent.{IsConsistent}
use spidercheck.Urls.{SplitUrl, UrlLib}
use spidercheck.Sites.{load_or_create, add_page}
use spidercheck.Sites.Pages.{load_or_create-Loads}
use spidercheck.Core.{link_target, scan_links}
use spidercheck.Core.Links.{IsAt, Parses, Reaches, link_target-Linked}

-- What the loop leaves: `own` are the links of the page when it began, `seen` its set `after`.
pub record Scanned (urls : UrlLib) (s : Site) (page : Page) (rest : List Text) (seen : List ℕ)
    (own : ℕ → Bool) (db : Db) (result : Outcome (List ℕ)) (after : Db) : Type 0 where
  pub consistent : IsConsistent after
  pub stays : (t : Page → Bool) → any t db.pages ≡ true → any t after.pages ≡ true
  pub same_sites : after.sites ≡ db.sites
  pub same_values : after.values ≡ db.values
  pub others :
      (a b : ℕ)
      → (page.id_page == a) ≡ false
      → any (is_link a b) after.links ≡ any (is_link a b) db.links
  pub targets :
      (found : List ℕ)
      → result ≡ returned found
      → (b : ℕ) → any (is_link page.id_page b) after.links ≡ own b || member b found
  pub exact :
      (found : List ℕ)
      → result ≡ returned found
      → (b : ℕ)
      → (member b found ≡ true) ↔ (
          (member b seen ≡ true)
          ⊎ ((u : Text) × (any (text_eq u) rest ≡ true) × Reaches urls s after u b))
  pub total : All (Parses urls) rest → (found : List ℕ) × (result ≡ returned found)

module _ (urls : UrlLib) (s : Site) (page : Page) (now : ℕ) where
  scan_links-raised :
      (u : Text) (rest : List Text) (seen : List ℕ) (db : Db) (e : Exc)
      → urls.urlparse u ≡ raised e
      → scan_links urls s page now (u ∷ rest) seen db ≡ (raised e, db)
  unfolding scan_links add_page
  scan_links-raised u rest seen db e h = rw h

  scan_links-returned :
      (u : Text) (rest : List Text) (seen found : List ℕ) (db db1 db2 : Db) (info : SplitUrl)
      (target : Page) (created : Bool)
      → urls.urlparse u ≡ returned info
      → load_or_create s info.path info.query now db ≡ (returned (target, created), db1)
      → link_target page target seen db1 ≡ (returned found, db2)
      → scan_links urls s page now (u ∷ rest) seen db ≡ scan_links urls s page now rest found db2
  unfolding scan_links add_page
  scan_links-returned u rest seen found db db1 db2 info target created h load link =
      rw (h, load, link)

  -- The set after one more address.
  exact_step :
      (u : Text) (rest : List Text) (seen found all : List ℕ) (info : SplitUrl) (target : Page)
      (b : ℕ) (after : Db)
      → IsConsistent after
      → urls.urlparse u ≡ returned info
      → Among after.pages target
      → at_url s.id_site info.path info.query target ≡ true
      → member b found ≡ member b seen || (target.is_linkable && target.id_page == b)
      → (member b all ≡ true) ↔ (
          (member b found ≡ true)
          ⊎ ((v : Text) × (any (text_eq v) rest ≡ true) × Reaches urls s after v b))
      → (member b all ≡ true) ↔ (
          (member b seen ≡ true)
          ⊎ ((v : Text) × (any (text_eq v) (u ∷ rest) ≡ true) × Reaches urls s after v b))
  unfolding any
  exact_step u rest seen found all info target b after c good row place set ih = (
    λ m. elim (ih.0 m) [
      | inl f ↦ elim (Bool-cases (member b seen)) [
        | inl old ↦ inl old
        | inr new ↦ inr (
          u,
          ground (arith, text_eq_self u),
          record {
            info = info;
            target = target;
            parsed = good;
            row = row;
            place = place;
            linkable = ground arith;
          },
        )
      ]
      | inr (v, in_rest, r) ↦ inr (v, ground arith, r)
    ],
    λ h. elim h [
      | inl old ↦ ih.1 (inl (ground arith))
      | inr (v, here, r) ↦ elim (Bool-cases (text_eq v u)) [
        | inr other ↦ ih.1 (inr (v, ground arith, r))
        | inl same ↦
            let e : v ≡ u = (text_eq_iff v u).0 same in
            let p : urls.urlparse u ≡ returned r.info = rw (← e) r.parsed in
            let q : r.info ≡ info = cc in
            let place' : at_url s.id_site info.path info.query r.target ≡ true = rw (← q) r.place in
            let linkable =
              Among-unique (at_url s.id_site info.path info.query) after.pages r.target target
                (c.pages.urls s.id_site info.path info.query) r.row row place' place
                (λ x. x.is_linkable && x.id_page == b) r.linkable in
            ih.1 (inl (ground arith))
      ]
    ],
  )

  pub scan_links-Scanned :
      (rest : List Text) (seen : List ℕ) (own : ℕ → Bool) (db : Db)
      → IsConsistent db
      → IsAt s page db
      → ((b : ℕ) → any (is_link page.id_page b) db.links ≡ own b || member b seen)
      → Scanned urls s page rest seen own db
          (scan_links urls s page now rest seen db).0
          (scan_links urls s page now rest seen db).1
  unfolding scan_links any
  scan_links-Scanned [] seen own db c at links = record {
    consistent = c;
    stays = λ t h. h;
    same_sites = refl;
    same_values = refl;
    others = λ a b h. refl;
    targets = λ found e b. let q : seen ≡ found = cc in rw (← q) (links b);
    exact = λ found e b.
        let q : seen ≡ found = cc in
        (λ h. inl (rw q h), λ h. elim h [ inl m ↦ rw (← q) m | inr (u, none_left, r) ↦ cc ]);
    total = λ h. (seen, refl);
  }
  scan_links-Scanned (u ∷ rest) seen own db c at links = elim (Outcome-cases (urls.urlparse u)) [
    | inr (e, bad) ↦ rw (scan_links-raised u rest seen db e bad) (record {
      consistent = c;
      stays = λ t h. h;
      same_sites = refl;
      same_values = refl;
      others = λ a b h. refl;
      targets = λ found q b. cc;
      exact = λ found q b. cc;
      total = λ h. let (info, good) = h.0 in cc;
    })
    | inl (info, good) ↦
        let (target, created, db1, load, l) =
          load_or_create-Loads s info.path info.query db now c at.site in
        let here = l.stays (has_id page.id_page) at.row in
        let (found, db2, link, k) =
          link_target-Linked page target seen own db1 l.consistent here l.row
            (λ b. rw l.same_links (links b)) in
        let site : any (has_site_id s.id_site) db2.sites ≡ true =
          rw (k.rest.same_sites, l.same_sites) at.site in
        let row : any (has_id page.id_page) db2.pages ≡ true = rw k.rest.same_pages here in
        let ih =
          scan_links-Scanned rest found own db2 k.consistent (record { site = site; row = row })
            k.targets in
        rw (scan_links-returned u rest seen found db db1 db2 info target created good load link)
          (record {
            consistent = ih.consistent;
            stays = λ t h. ih.stays t (rw k.rest.same_pages (l.stays t h));
            same_sites = ih.same_sites ∙ k.rest.same_sites ∙ l.same_sites;
            same_values = ih.same_values ∙ k.rest.same_values ∙ l.same_values;
            others = λ a b h.
                ih.others a b h
                ∙ k.others a b h
                ∙ ap (λ (ls : List Link). any (is_link a b) ls) l.same_links;
            targets = ih.targets;
            exact = λ all q b.
                exact_step u rest seen found all info target b
                  (scan_links urls s page now rest found db2).1 ih.consistent good
                  (λ t h. ih.stays t (rw k.rest.same_pages (l.row t h))) l.place (k.set b)
                  (ih.exact all q b);
            total = λ h. ih.total h.1;
          })
  ]

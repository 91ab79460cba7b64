-- ===== src/Core/Links.antt =====
-- The link from a page to one of its targets in `_update_links` of src/spidercheck/core.py, and what
-- it means that an address leads to a page.
use spidercheck.Prelude.{
  ℕ, ◌≡◌, refl, Bool, true, false, ◌&&◌, ◌||◌, List, arith, Text, any, any-snoc, ◌==◌, ==_self, inl,
  inr, Bool-cases,
}
use spidercheck.Results.{returned}
use spidercheck.Rows.{set_add, member}
use spidercheck.Rows.Among.{Among}
use spidercheck.Rows.Laws.{member-set_add}
use spidercheck.Models.{Site, Page, Db}
use spidercheck.Tables.{has_id, at_url, accepts_links, is_link, has_site_id, get_or_create_link}
use spidercheck.Tables.Consistent.{IsConsistent}
use spidercheck.Tables.Inserts.{get_or_create_link-IsConsistent}
use spidercheck.Urls.{SplitUrl, UrlLib}
use spidercheck.Core.{link_target}

-- What the links show after `get_or_create`: the one asked for, and those that were there.
any-get_or_create_link :
    (a b : ℕ) (db : Db) (c d : ℕ)
    → any (is_link c d) (get_or_create_link a b db).1.links
      ≡ any (is_link c d) db.links || (a == c && b == d)
unfolding get_or_create_link
any-get_or_create_link a b db c d = elim (Bool-cases (any (is_link a b) db.links)) [
  | inl old ↦ elim (Bool-cases (a == c && b == d)) [
    | inl same ↦
        let ea : a ≡ c = ground arith in
        let eb : b ≡ d = ground arith in
        let here : any (is_link c d) db.links ≡ true = rw (← ea, ← eb) old in ground arith
    | inr other ↦ ground arith
  ]
  | inr new ↦ ground (
    arith,
    any-snoc (is_link c d) db.links (record { id_link = db.next_link; from_page = a; to_page = b }),
  )
]

get_or_create_link-returned :
    (a b : ℕ) (db : Db) → (created : Bool) × ((get_or_create_link a b db).0 ≡ returned created)
unfolding get_or_create_link
get_or_create_link-returned a b db = elim (Bool-cases (any (is_link a b) db.links)) [
  | inl old ↦ (false, rw old)
  | inr new ↦ (true, rw new)
]

-- The other tables are as they were.
pub record SameRest (db after : Db) : Type 0 where
  pub same_pages : after.pages ≡ db.pages
  pub same_sites : after.sites ≡ db.sites
  pub same_values : after.values ≡ db.values

get_or_create_link-SameRest : (a b : ℕ) (db : Db) → SameRest db (get_or_create_link a b db).1
unfolding get_or_create_link
get_or_create_link-SameRest a b db = elim (Bool-cases (any (is_link a b) db.links)) [
  | inl old ↦
      rw (old, get_or_create_link)
        (record { same_pages = refl; same_sites = refl; same_values = refl })
  | inr new ↦
      rw (new, get_or_create_link)
        (record { same_pages = refl; same_sites = refl; same_values = refl })
]

-- A page that the links know: its row and its site are there.
pub record IsAt (s : Site) (page : Page) (db : Db) : Type 0 where
  pub site : any (has_site_id s.id_site) db.sites ≡ true
  pub row : any (has_id page.id_page) db.pages ≡ true

abbrev pub Parses : UrlLib → Text → Type 0
Parses urls u = (info : SplitUrl) × (urls.urlparse u ≡ returned info)

-- The address `u` leads to the page of key `b`, which accepts links.
pub record Reaches (urls : UrlLib) (s : Site) (after : Db) (u : Text) (b : ℕ) : Type 0 where
  pub info : SplitUrl
  pub target : Page
  pub parsed : urls.urlparse u ≡ returned info
  pub row : Among after.pages target
  pub place : at_url s.id_site info.path info.query target ≡ true
  pub linkable : (target.is_linkable && target.id_page == b) ≡ true

-- One target: the link is there, and the set holds the key, exactly if the target accepts links.
pub record Linked (page target : Page) (seen : List ℕ) (own : ℕ → Bool) (db : Db) (found : List ℕ)
    (after : Db) : Type 0 where
  pub consistent : IsConsistent after
  pub rest : SameRest db after
  pub others :
      (a b : ℕ)
      → (page.id_page == a) ≡ false
      → any (is_link a b) after.links ≡ any (is_link a b) db.links
  pub targets : (b : ℕ) → any (is_link page.id_page b) after.links ≡ own b || member b found
  pub set : (b : ℕ) → member b found ≡ member b seen || (target.is_linkable && target.id_page == b)

pub link_target-Linked :
    (page target : Page) (seen : List ℕ) (own : ℕ → Bool) (db : Db)
    → IsConsistent db
    → any (has_id page.id_page) db.pages ≡ true
    → Among db.pages target
    → ((b : ℕ) → any (is_link page.id_page b) db.links ≡ own b || member b seen)
    → (found : List ℕ) × (after : Db) × (link_target page target seen db ≡ (returned found, after))
      × Linked page target seen own db found after
unfolding link_target
link_target-Linked page target seen own db c here among links =
    elim (Bool-cases target.is_linkable) [
      | inr closed ↦ (
        seen,
        db,
        rw closed,
        record {
          consistent = c;
          rest = record { same_pages = refl; same_sites = refl; same_values = refl };
          others = λ a b h. refl;
          targets = links;
          set = λ b. ground arith;
        },
      )
      | inl open' ↦
          let a = page.id_page in
          let t = target.id_page in
          let after = (get_or_create_link a t db).1 in
          let (created, run) = get_or_create_link-returned a t db in
          let accepts = among (accepts_links t) (rw open' (ground (arith, ==_self t))) in
          (
            set_add t seen,
            after,
            rw (open', run),
            record {
              consistent = get_or_create_link-IsConsistent a t db c here accepts;
              rest = get_or_create_link-SameRest a t db;
              others = λ x b h. ground (arith, any-get_or_create_link a t db x b);
              targets = λ b.
                  ground
                    (arith, any-get_or_create_link a t db a b, links b, member-set_add b t seen);
              set = λ b. ground (arith, member-set_add b t seen);
            },
          )
    ]

-- ===== src/Tables/Consistent.antt =====
-- The invariant of the database: keys and natural keys are unique, no row refers to a page or site
-- that is not there, and every link ends at a page that accepts links.
use spidercheck.Prelude.{ℕ, ◌≤◌, ◌<◌, ◌≡◌, Bool, true, List, Text, any, ◌==◌, arith}
use spidercheck.Seq.{count_if}
use spidercheck.Models.{Site, Page, Link, Value, ScheduledPage, Db, empty_db}
use spidercheck.Tables.{
  has_id, in_site, at_url, accepts_links, is_link, is_value, has_value_id, has_site_id, is_named,
  has_seed,
}

abbrev pub is_scheduled : ℕ → ScheduledPage → Bool
is_scheduled i s = s.page == i

pub record AreSites (sites : List Site) (next : ℕ) : Type 0 where
  pub fresh : (i : ℕ) → any (has_site_id i) sites ≡ true → i < next
  pub ids : (i : ℕ) → count_if sites (has_site_id i) ≤ 1
  pub names : (name : Text) → count_if sites (is_named name) ≤ 1
  pub seeds : (scheme netloc path : Text) → count_if sites (has_seed scheme netloc path) ≤ 1

pub record ArePages (sites : List Site) (pages : List Page) (next : ℕ) : Type 0 where
  pub fresh : (i : ℕ) → any (has_id i) pages ≡ true → i < next
  pub ids : (i : ℕ) → count_if pages (has_id i) ≤ 1
  pub urls : (s : ℕ) (subpath params : Text) → count_if pages (at_url s subpath params) ≤ 1
  pub owners : (s : ℕ) → any (in_site s) pages ≡ true → any (has_site_id s) sites ≡ true

pub record AreLinks (pages : List Page) (links : List Link) : Type 0 where
  pub pairs : (a b : ℕ) → count_if links (is_link a b) ≤ 1
  pub sources : (a b : ℕ) → any (is_link a b) links ≡ true → any (has_id a) pages ≡ true
  pub targets : (a b : ℕ) → any (is_link a b) links ≡ true → any (accepts_links b) pages ≡ true

pub record AreValues (pages : List Page) (values : List Value) (next : ℕ) : Type 0 where
  pub fresh : (i : ℕ) → any (has_value_id i) values ≡ true → i < next
  pub ids : (i : ℕ) → count_if values (has_value_id i) ≤ 1
  pub names : (i : ℕ) (name : Text) → count_if values (is_value i name) ≤ 1
  pub owners :
      (i : ℕ) (name : Text) → any (is_value i name) values ≡ true → any (has_id i) pages ≡ true

pub record AreScheduled (pages : List Page) (scheduled : List ScheduledPage) : Type 0 where
  pub ids : (i : ℕ) → count_if scheduled (is_scheduled i) ≤ 1
  pub owners : (i : ℕ) → any (is_scheduled i) scheduled ≡ true → any (has_id i) pages ≡ true

pub record IsConsistent (db : Db) : Type 0 where
  pub sites : AreSites db.sites db.next_site
  pub pages : ArePages db.sites db.pages db.next_page
  pub links : AreLinks db.pages db.links
  pub values : AreValues db.pages db.values db.next_value
  pub scheduled : AreScheduled db.pages db.scheduled

pub empty_db-IsConsistent : IsConsistent empty_db
unfolding any count_if
empty_db-IsConsistent = record {
  sites = record {
    fresh = λ i h. cc;
    ids = λ i. omega arith;
    names = λ n. omega arith;
    seeds = λ s n p. omega arith;
  };
  pages = record {
    fresh = λ i h. cc;
    ids = λ i. omega arith;
    urls = λ s a b. omega arith;
    owners = λ s h. cc;
  };
  links = record { pairs = λ a b. omega arith; sources = λ a b h. cc; targets = λ a b h. cc };
  values = record {
    fresh = λ i h. cc;
    ids = λ i. omega arith;
    names = λ i n. omega arith;
    owners = λ i n h. cc;
  };
  scheduled = record { ids = λ i. omega arith; owners = λ i h. cc };
}

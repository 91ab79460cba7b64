-- ===== src/Crawl/Open.antt =====
-- What a check keeps of the database, and a page that is being checked: it may differ from its row
-- in what the check found.
use spidercheck.Prelude.{ℕ, ◌≡◌, refl, ◌∙◌, Bool, true, Text, any, ==_self}
use spidercheck.Prelude.Int.{ℤ}
use spidercheck.Rows.Among.{Among}
use spidercheck.Models.{Site, Page, Db}
use spidercheck.Tables.{has_id, in_site}
use spidercheck.Tables.Consistent.{IsConsistent}
use spidercheck.Tables.Rewrites.{SamePlace, Saved, save_row, row-accepts}
use spidercheck.Core.Links.{IsAt}

-- The database is consistent afterwards and has the pages that it had.
pub record Keeps (db after : Db) : Type 0 where
  pub consistent : IsConsistent after
  pub pages : (i : ℕ) → any (has_id i) db.pages ≡ true → any (has_id i) after.pages ≡ true

pub Keeps-self : (db : Db) → IsConsistent db → Keeps db db
Keeps-self db c = record { consistent = c; pages = λ i h. h }

pub Keeps-after : (db mid after : Db) → Keeps db mid → Keeps mid after → Keeps db after
Keeps-after db mid after k l = record {
  consistent = l.consistent;
  pages = λ i h. l.pages i (k.pages i h);
}

-- `page` is what a row was when it was read, but for columns that a check writes.
pub record IsOpen (page : Page) (db : Db) : Type 0 where
  pub row : Page
  pub among : Among db.pages row
  pub same : SamePlace row page
  pub linkable : page.is_linkable ≡ row.is_linkable

-- A check writes no column that tells.
abbrev pub touched :
    (page : Page) (db : Db) (checked_at : ℕ) (is_checked : Bool) (check_time status size_bytes : ℤ)
    (content_type error_message : Text)
    → IsOpen page db
    → IsOpen
        (record page {
          checked_at = checked_at;
          is_checked = is_checked;
          check_time = check_time;
          status = status;
          size_bytes = size_bytes;
          content_type = content_type;
          error_message = error_message;
        })
        db
touched page db checked_at is_checked check_time status size_bytes content_type error_message o =
    record {
      row = o.row;
      among = o.among;
      same = record {
        id_page = o.same.id_page;
        site = o.same.site;
        subpath = o.same.subpath;
        params = o.same.params;
      };
      linkable = o.linkable;
    }

module _ (page : Page) (db : Db) (c : IsConsistent db) (o : IsOpen page db) where
  pub saved : (after : Db) × Saved o.row page db after
  saved =
      save_row o.row page db c o.among o.same
        (λ a h. o.linkable ∙ row-accepts o.row db c o.among a h)

  pub is_at : (s : Site) → s.id_site ≡ page.site → IsAt s page db
  is_at s e = record {
    site =
        rw (e, o.same.site)
          (c.pages.owners o.row.site (o.among (in_site o.row.site) (==_self o.row.site)));
    row = rw o.same.id_page (o.among (has_id o.row.id_page) (==_self o.row.id_page));
  }

-- After a save the instance is a row.
pub opened : (page new : Page) (db after : Db) → Saved page new db after → IsOpen new after
opened page new db after v = record {
  row = new;
  among = v.row;
  same = record { id_page = refl; site = refl; subpath = refl; params = refl };
  linkable = refl;
}

pub Saved-Keeps : (page new : Page) (db after : Db) → Saved page new db after → Keeps db after
Saved-Keeps page new db after v = record { consistent = v.consistent; pages = λ i h. v.ids i ∙ h }

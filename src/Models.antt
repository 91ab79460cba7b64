-- ===== src/Models.antt =====
-- The tables of src/spidercheck/models.py as records, one field to a column, and the database as
-- their rows with the next key of each sequence. Times are microseconds since the EPOCH; a foreign
-- key is the primary key that it holds. The columns that Django allows to be NULL (subpath,
-- params) are texts: the program never writes a NULL into them.
use spidercheck.Prelude.{ℕ, Bool, List, Text, [], true, false}
use spidercheck.Prelude.Int.{ℤ, pos}

pub record Site : Type 0 where
  pub id_site : ℕ
  pub name : Text
  pub scheme : Text
  pub netloc : Text
  pub path : Text
  pub created_at : ℕ

pub record Page : Type 0 where
  pub id_page : ℕ
  pub site : ℕ
  pub subpath : Text
  pub params : Text
  pub is_checked : Bool
  pub checked_at : ℕ
  pub check_time : ℤ
  pub status : ℤ
  pub created_at : ℕ
  pub size_bytes : ℤ
  pub content_type : Text
  pub error_message : Text
  pub is_linkable : Bool

pub record Link : Type 0 where
  pub id_link : ℕ
  pub from_page : ℕ
  pub to_page : ℕ

pub record Value : Type 0 where
  pub id_value : ℕ
  pub page : ℕ
  pub name : Text
  pub value : Text

-- Its page is its primary key. No rotation is negative.
pub record ScheduledPage : Type 0 where
  pub page : ℕ
  pub rotation : ℕ
  pub updated_at : ℕ
  pub created_at : ℕ

pub record Db : Type 0 where
  pub sites : List Site
  pub pages : List Page
  pub links : List Link
  pub values : List Value
  pub scheduled : List ScheduledPage
  pub next_site : ℕ
  pub next_page : ℕ
  pub next_link : ℕ
  pub next_value : ℕ

abbrev pub epoch : ℕ
epoch = 0

-- An instance that is not saved yet: the defaults of the columns.
abbrev pub new_page : ℕ → Text → Text → ℕ → Page
new_page site subpath params now = record {
  id_page = 0;
  site = site;
  subpath = subpath;
  params = params;
  is_checked = false;
  checked_at = epoch;
  check_time = pos 0;
  status = pos 0;
  created_at = now;
  size_bytes = pos 0;
  content_type = [];
  error_message = [];
  is_linkable = true;
}

abbrev pub empty_db : Db
empty_db = record {
  sites = [];
  pages = [];
  links = [];
  values = [];
  scheduled = [];
  next_site = 1;
  next_page = 1;
  next_link = 1;
  next_value = 1;
}

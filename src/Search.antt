-- ===== src/Search.antt =====
-- The index of src/spidercheck/search.py: its schema, the fields that are searched, and `search_web`.
pub mod Documents
use spidercheck.Prelude.{Bool, true, false, List, [], ◌∷◌, Option, some, Text, codes}
use spidercheck.Results.{Exc, name_error}

-- `string`, `string[]`, `int32` and `int64`.
pub data FieldType : Type 0 where
  string strings int32 int64 : FieldType

pub record Field : Type 0 where
  pub name : Text
  pub type : FieldType
  pub facet : Bool

abbrev pub index_name : Text
index_name = codes "web"

abbrev field : Text → FieldType → Field
field name type = record { name = name; type = type; facet = false }

abbrev facet : Text → FieldType → Field
facet name type = record { name = name; type = type; facet = true }

pub record Schema : Type 0 where
  pub name : Text
  pub fields : List Field
  pub default_sorting_field : Text

abbrev pub index_schema : Schema
index_schema = record {
  name = index_name;
  fields =
      field (codes "id") string
      ∷ field (codes "page_id") int64
      ∷ field (codes "url") string
      ∷ field (codes "title") string
      ∷ field (codes "keywords") strings
      ∷ facet (codes "area") string
      ∷ field (codes "h1") strings
      ∷ field (codes "h2") strings
      ∷ field (codes "h3") strings
      ∷ field (codes "h4") strings
      ∷ field (codes "h5") strings
      ∷ field (codes "h6") strings
      ∷ field (codes "body") string
      ∷ facet (codes "version") int32
      ∷ [];
  default_sorting_field = codes "page_id";
}

abbrev pub search_fields : List Text
search_fields =
    codes "url"
    ∷ codes "title"
    ∷ codes "keywords"
    ∷ codes "h1"
    ∷ codes "h2"
    ∷ codes "h3"
    ∷ codes "h4"
    ∷ codes "h5"
    ∷ codes "h6"
    ∷ codes "body"
    ∷ []

-- The generator: the documents that it yields, and the exception that ends it. The module does not
-- import the adapter `_sa` that its body names.
unfoldable pub search_web : {A : Type 0} → Text → List A × Option Exc
search_web query = ([], some name_error)

-- ===== src/Values.antt =====
-- The values of pages in src/spidercheck/models.py: `Value.upsert` and the readers of `Page`.
pub mod Keys
pub mod Texts
pub mod Upsert
use spidercheck.Prelude.{
  ℕ, Bool, true, List, Option, none, some, Text, codes, any, keep, text_eq, ◌==◌, ◌&&◌,
}
use spidercheck.Rows.{first_row}
use spidercheck.Models.{Page, Value, Db}
use spidercheck.Action.{Action, pure, ◌>>=◌, ◌>>◌}
use spidercheck.Tables.{is_value, get_or_create_value, save_value_text}

-- `value` is the text that `str` makes of what the plugin gave.
unfoldable pub upsert : ℕ → Text → Text → Action Value
upsert page name value = do
  found ← get_or_create_value page name
  save_value_text found.id_value value
  pure (record found { value = value })

value_or : Option Value → Text → Text
value_or none default = default
value_or (some v) default = v.value

-- `self.values.filter(name=name).first()`, in the order of the model: one page, then the name.
unfoldable pub get_value : Page → Text → Text → Db → Text
unfolding value_or
get_value p name default db =
    value_or (first_row (keep (is_value p.id_page name) db.values)) default

abbrev pub no_value : Text
no_value = codes "Desconocido/No aplica"

unfoldable pub get_version : Page → Db → Text
unfolding get_value
get_version p db = get_value p (codes "version") no_value db

unfoldable pub get_title : Page → Db → Text
unfolding get_value
get_title p db = get_value p (codes "title") no_value db

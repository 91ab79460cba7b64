-- ===== src/Values/Upsert.antt =====
-- What `Value.upsert` of src/spidercheck/models.py leaves for a reader.
use spidercheck.Prelude.{
  ℕ, ◌≡◌, refl, ◌∙◌, true, false, ◌&&◌, Text, text_eq, text_eq_iff, arith, any, ◌==◌, if◌then◌else◌,
  inl, inr, Bool-cases,
}
use spidercheck.Results.{returned}
use spidercheck.Models.{Value, Db}
use spidercheck.Tables.{has_id, is_value, save_value_text}
use spidercheck.Tables.Consistent.{IsConsistent}
use spidercheck.Tables.Values.{save_value_text-IsConsistent}
use spidercheck.Tables.Stored.{
  value_is, get_or_create_value_lem, save_value_text_self, save_value_text_ne,
}
use spidercheck.Values.{upsert}

module _ (page : ℕ) (name text : Text) (db : Db) where
  -- A reader sees the new text under the name, and what it saw under any other.
  abbrev pub Upserted : Db → Type 0
  Upserted after =
      (page' : ℕ) (name' text' : Text)
      → any (value_is page' name' text') after.values ≡ (
          if page == page' && text_eq name name'
          then text_eq text text'
          else any (value_is page' name' text') db.values)

  -- An upsert for a page of a consistent database never raises, keeps the database consistent, and
  -- leaves the pages, the links and the sites alone. Afterwards a reader sees the text under the
  -- name of that page, and everywhere else the text that it saw.
  pub upsert_lem :
      IsConsistent db
      → any (has_id page) db.pages ≡ true
      → (v : Value) × (after : Db) × (upsert page name text db ≡ (returned v, after))
        × IsConsistent after
        × (after.pages ≡ db.pages)
        × (after.links ≡ db.links)
        × (after.sites ≡ db.sites)
        × Upserted after
  unfolding upsert
  upsert_lem c owner =
      let (v, made, run, row, hit, kept, pages, links, sites, others) =
        get_or_create_value_lem page name db c owner in
      let after = (save_value_text v.id_value text made).1 in
      (
        record v { value = text },
        after,
        rw run (unfold save_value_text in refl),
        save_value_text-IsConsistent v.id_value text made kept,
        unfold save_value_text in pages,
        unfold save_value_text in links,
        unfold save_value_text in sites,
        λ page' name' text'. elim (Bool-cases (page == page' && text_eq name name')) [
          | inl same ↦
              let ep : page ≡ page' = ground arith in
              let en : name ≡ name' = ground (arith, text_eq_iff name name') in
              rw (same, ← ep, ← en) (save_value_text_self page name text made kept v row hit text')
          | inr other ↦
              let miss : is_value page' name' v ≡ false = ground (
                arith,
                text_eq_iff v.name name,
                text_eq_iff v.name name',
                text_eq_iff name name',
              ) in
              rw other (
                save_value_text_ne page name text made kept v row hit page' name' text' miss
                ∙ others page' name' text' miss)
        ],
      )

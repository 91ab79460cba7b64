-- ===== src/Tables/Stored.antt =====
-- Which values the table holds after `get_or_create` and `save` of a value.
use spidercheck.Prelude.{
  ℕ, ◌+◌, ◌≡◌, refl, ◌∙◌, Bool, true, false, List, [], ◌∷◌, ◌++◌, Text, text_eq, text_eq_self, any,
  any-snoc, keep, map, arith, inl, inr, Bool-cases, Option-cases, not, ◌&&◌,
}
use spidercheck.Results.{returned}
use spidercheck.Rows.{first_row}
use spidercheck.Rows.Among.{Among, Among-excludes, first_row-Among, keep-Among}
use spidercheck.Rows.Laws.{any-agree, any-never}
use spidercheck.Models.{Value, Db}
use spidercheck.Tables.{
  has_id, is_value, has_value_id, get_or_create_value, set_text, save_value_text,
}
use spidercheck.Tables.Consistent.{IsConsistent}
use spidercheck.Tables.Values.{get_or_create_value-IsConsistent}

-- The value of a page under a name has this text.
abbrev pub value_is : ℕ → Text → Text → Value → Bool
value_is page name text v = is_value page name v && text_eq v.value text

any-map :
    (f : Value → Value) (t : Value → Bool) (vs : List Value)
    → any t (map f vs) ≡ any (λ v. t (f v)) vs
unfolding any
any-map f t [] = refl
any-map f t (v ∷ vs) = ground (arith, any-map f t vs)

module _ (page : ℕ) (name text : Text) (db : Db) (c : IsConsistent db) (v : Value)
    (row : Among db.values v) (hit : is_value page name v ≡ true) where
  -- What the change of the text of one row lets a reader see under its own name,
  pub save_value_text_self :
      (text' : Text)
      → any (value_is page name text') (save_value_text v.id_value text db).1.values
        ≡ text_eq text text'
  unfolding save_value_text
  save_value_text_self text' = elim (Bool-cases (text_eq text text')) [
    | inl same ↦
        rw (any-map, same)
          (row (λ x. value_is page name text' (set_text v.id_value text x)) (ground arith))
    | inr other ↦
        rw (any-map, other)
          (any-agree (λ x. value_is page name text' (set_text v.id_value text x)) (λ _. false)
              (λ x. is_value page name x && not (has_value_id v.id_value x)) db.values
              (Among-excludes (is_value page name) (λ x. not (has_value_id v.id_value x)) db.values
                v (c.values.names page name) row hit (ground arith))
              (λ x e. ground arith)
            ∙ any-never db.values)
  ]

  -- and under any other.
  pub save_value_text_ne :
      (page' : ℕ) (name' text' : Text)
      → is_value page' name' v ≡ false
      → any (value_is page' name' text') (save_value_text v.id_value text db).1.values
        ≡ any (value_is page' name' text') db.values
  unfolding save_value_text
  save_value_text_ne page' name' text' miss = rw any-map (
      any-agree (λ x. value_is page' name' text' (set_text v.id_value text x))
        (value_is page' name' text') (λ x. has_value_id v.id_value x && is_value page' name' x)
        db.values
        (Among-excludes (has_value_id v.id_value) (is_value page' name') db.values v
          (c.values.ids v.id_value) row (ground arith) miss)
        (λ x e. ground arith))

-- `get_or_create` for a page that is there: the row is found or made, and no reader of another row
-- sees a difference.
pub get_or_create_value_lem :
    (page : ℕ) (name : Text) (db : Db)
    → IsConsistent db
    → any (has_id page) db.pages ≡ true
    → (v : Value) × (after : Db) × (get_or_create_value page name db ≡ (returned v, after))
      × Among after.values v
      × (is_value page name v ≡ true)
      × IsConsistent after
      × (after.pages ≡ db.pages)
      × (after.links ≡ db.links)
      × (after.sites ≡ db.sites)
      × ((page' : ℕ) (name' text' : Text)
          → is_value page' name' v ≡ false
          → any (value_is page' name' text') after.values
            ≡ any (value_is page' name' text') db.values)
unfolding get_or_create_value
get_or_create_value_lem page name db c owner =
    let row : Value = record { id_value = db.next_value; page = page; name = name; value = [] } in
    elim (Option-cases (first_row (keep (is_value page name) db.values))) [
      | inl absent ↦
          let after : Db = record db {
            values = db.values ++ row ∷ [];
            next_value = db.next_value + 1;
          } in
          let e : get_or_create_value page name db ≡ (returned row, after) =
            rw (absent, get_or_create_value) in
          let kept = get_or_create_value-IsConsistent page name db c owner in
          (
            row,
            after,
            e,
            λ t h. ground (arith, any-snoc t db.values row),
            ground (arith, text_eq_self name),
            rw e at kept,
            refl,
            refl,
            refl,
            λ page' name' text' miss.
                ground (arith, any-snoc (value_is page' name' text') db.values row),
          )
      | inr (old, found) ↦
          let (among, hit) =
            keep-Among (is_value page name) db.values old (first_row-Among _ old found) in
          (
            old,
            db,
            rw (found, get_or_create_value),
            among,
            hit,
            c,
            refl,
            refl,
            refl,
            λ page' name' text' miss. refl,
          )
    ]

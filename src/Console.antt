-- ===== src/Console.antt =====
-- What the management command src/spidercheck/management/commands/spidercheck.py does beside the
-- database: it prints. A line is a list of pieces; a piece that Python's `str` makes of a value that is
-- no text is the value itself.
use spidercheck.Prelude.{ℕ, List, [], ◌∷◌, ◌++◌, Option, Text}
use spidercheck.Prelude.Int.{ℤ}
use spidercheck.Results.{Exc, Outcome, returned, raised}
use spidercheck.Models.{Db}
use spidercheck.Action.{Action}
use spidercheck.Sites.Counts.{Share}
use spidercheck.Crawl.{Checked}

-- A text, a time, a time span, a percentage, the result of a check, a panel with its text, the
-- message of an exception.
pub data Piece : Type 0 where
  text : Text → Piece
  moment : ℕ → Piece
  span : ℤ → Piece
  percent : Share → Piece
  result : Checked → Piece
  panel : Text → Piece
  message : Exc → Piece

-- `out` with a line break, `out` with `end=' '`, and a table with its title, its columns and its
-- rows.
pub data Printed : Type 0 where
  line : List Piece → Printed
  start : List Piece → Printed
  table : Option Text → List Text → List (List Piece) → Printed

abbrev pub Console : Type 0 → Type 0
Console A = Db → List Printed × (Outcome A × Db)

abbrev pub pure : {A : Type 0} → A → Console A
pure a db = ([], (returned a, db))

abbrev pub raise : {A : Type 0} → Exc → Console A
raise e db = ([], (raised e, db))

abbrev pub lift : {A : Type 0} → Outcome A → Console A
lift o db = ([], (o, db))

abbrev pub read : {A : Type 0} → (Db → A) → Console A
read f db = ([], (returned (f db), db))

abbrev pub say : Printed → Console Unit
say p db = (p ∷ [], (returned tt, db))

abbrev pub perform : {A : Type 0} → Action A → Console A
perform m db = ([], m db)

abbrev pub resume : {A B : Type 0} → List Printed → Outcome A → (A → Console B) → Console B
resume out (returned a) f db = let (more, rest) = f a db in (out ++ more, rest)
resume out (raised e) f db = (out, (raised e, db))

infixl 5 ◌>>=◌ ◌>>◌
abbrev pub ◌>>=◌ : {A B : Type 0} → Console A → (A → Console B) → Console B
◌>>=◌ m f db = let (out, (o, after)) = m db in resume out o f after

abbrev pub ◌>>◌ : {B : Type 0} → Console Unit → Console B → Console B
m >> k = m >>= λ _. k

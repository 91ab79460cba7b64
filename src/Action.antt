-- ===== src/Action.antt =====
-- Code that reads and writes the database and may raise. Every statement commits by itself, as
-- under Django's autocommit: what was written before an exception stays written.
use spidercheck.Results.{Exc, Outcome, returned, raised}
use spidercheck.Models.{Db}

abbrev pub Action : Type 0 → Type 0
Action A = Db → Outcome A × Db

abbrev pub pure : {A : Type 0} → A → Action A
pure a db = (returned a, db)

abbrev pub raise : {A : Type 0} → Exc → Action A
raise e db = (raised e, db)

-- A computation that does not touch the database.
abbrev pub lift : {A : Type 0} → Outcome A → Action A
lift o db = (o, db)

abbrev pub read : {A : Type 0} → (Db → A) → Action A
read f db = (returned (f db), db)

abbrev pub write : (Db → Db) → Action Unit
write f db = (returned tt, f db)

abbrev pub resume : {A B : Type 0} → Outcome A → (A → Action B) → Action B
resume (returned a) f db = f a db
resume (raised e) f db = (raised e, db)

infixl 5 ◌>>=◌ ◌>>◌
abbrev pub ◌>>=◌ : {A B : Type 0} → Action A → (A → Action B) → Action B
◌>>=◌ m f db = let (o, after) = m db in resume o f after

abbrev pub ◌>>◌ : {B : Type 0} → Action Unit → Action B → Action B
m >> k = m >>= λ _. k

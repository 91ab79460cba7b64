-- ===== src/Command/Safe.antt =====
-- Printing code that keeps the database consistent, and how it is put together.
use spidercheck.Prelude.{List}
use spidercheck.Results.{Exc, Outcome, returned, raised}
use spidercheck.Models.{Db}
use spidercheck.Tables.Consistent.{IsConsistent}
use spidercheck.Console.{Printed, Console, pure, raise, lift, read, say, resume, ◌>>=◌}

-- The database afterwards is consistent, if it was before.
pub data IsSafe {A : Type 0} (m : Console A) : Type 0 where
  safe : ((db : Db) → IsConsistent db → IsConsistent (m db).1.1) → IsSafe m

pub run_safe :
    {A : Type 0} (m : Console A) → IsSafe m → (db : Db) → IsConsistent db → IsConsistent (m db).1.1
run_safe m (safe h) = h

pub IsSafe-pure : {A : Type 0} (a : A) → IsSafe (pure a)
IsSafe-pure a = safe λ db c. c

pub IsSafe-raise : {A : Type 0} (e : Exc) → IsSafe {A = A} (raise e)
IsSafe-raise e = safe λ db c. c

pub IsSafe-lift : {A : Type 0} (o : Outcome A) → IsSafe (lift o)
IsSafe-lift o = safe λ db c. c

pub IsSafe-read : {A : Type 0} (f : Db → A) → IsSafe (read f)
IsSafe-read f = safe λ db c. c

pub IsSafe-say : (p : Printed) → IsSafe (say p)
IsSafe-say p = safe λ db c. c

pub resume-IsConsistent :
    {A B : Type 0} (out : List Printed) (o : Outcome A) (f : A → Console B) (db : Db)
    → ((a : A) → IsSafe (f a))
    → IsConsistent db
    → IsConsistent (resume out o f db).1.1
resume-IsConsistent out (returned a) f db h c = run_safe (f a) (h a) db c
resume-IsConsistent out (raised e) f db h c = c

pub IsSafe-bind :
    {A B : Type 0} (m : Console A) (f : A → Console B)
    → IsSafe m
    → ((a : A) → IsSafe (f a))
    → IsSafe (m >>= f)
IsSafe-bind m f (safe k) h =
    safe λ db c. resume-IsConsistent (m db).0 (m db).1.0 f (m db).1.1 h (k db c)

pub ruleset steps = (IsSafe-pure, IsSafe-raise, IsSafe-lift, IsSafe-read, IsSafe-say, IsSafe-bind)

-- ===== src/Fechas/Months.antt =====
-- The names of the months that `BaseDateParser` of src/spidercheck/fechas.py knows.
use spidercheck.Prelude.{ℕ, List, [], ◌∷◌, Text, codes}

-- `REVERSE_MONTH`
abbrev pub reverse_month : List (Text × ℕ)
reverse_month =
    (codes "JAN", 1)
    ∷ (codes "JANUARY", 1)
    ∷ (codes "ENE", 1)
    ∷ (codes "ENERO", 1)
    ∷ (codes "FEB", 2)
    ∷ (codes "FEBRUARY", 2)
    ∷ (codes "FEBRERO", 2)
    ∷ (codes "MAR", 3)
    ∷ (codes "MARCH", 3)
    ∷ (codes "MARZO", 3)
    ∷ (codes "APR", 4)
    ∷ (codes "APRIL", 4)
    ∷ (codes "ABR", 4)
    ∷ (codes "ABRIL", 4)
    ∷ (codes "MAY", 5)
    ∷ (codes "MAYO", 5)
    ∷ (codes "JUN", 6)
    ∷ (codes "JUNE", 6)
    ∷ (codes "JUNIO", 6)
    ∷ (codes "JUL", 7)
    ∷ (codes "JULY", 7)
    ∷ (codes "JULIO", 7)
    ∷ (codes "AUG", 8)
    ∷ (codes "AUGUST", 8)
    ∷ (codes "AGO", 8)
    ∷ (codes "AGOSTO", 8)
    ∷ (codes "SEP", 9)
    ∷ (codes "SEPTEMBER", 9)
    ∷ (codes "SEPTIEMBRE", 9)
    ∷ (codes "OCT", 10)
    ∷ (codes "OCTOBER", 10)
    ∷ (codes "OCTUBRE", 10)
    ∷ (codes "NOV", 11)
    ∷ (codes "NOVEMBER", 11)
    ∷ (codes "NOVIEMBRE", 11)
    ∷ (codes "DEC", 12)
    ∷ (codes "DECEMBER", 12)
    ∷ (codes "DIC", 12)
    ∷ (codes "DICIEMBRE", 12)
    ∷ []

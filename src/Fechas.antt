-- ===== src/Fechas.antt =====
-- Dates, src/spidercheck/fechas.py, over the calendar of Python's `datetime.date`: years 1 to 9999 of the
-- Gregorian calendar. Numbers in texts are those that `int` reads.
pub mod Calendar
pub mod Hours
pub mod Months
pub mod Spans
pub mod Regex
pub mod Patterns
pub mod Shapes
pub mod Parsers
pub mod Parsed
pub mod Iso
use spidercheck.Prelude.{
  ℕ, zero, suc, ◌+◌, ◌%◌, min, Bool, true, false, not, ◌&&◌, ◌||◌, List, [], ◌∷◌, Option, none,
  some, Text, length, ltb, leb, ◌==◌, if◌then◌else◌,
}
use spidercheck.Prelude.Int.{ℤ}
use spidercheck.Prelude.Numerals.{int_of}
use spidercheck.Results.{Outcome, returned, raised, chain, value_error}

pub record Date : Type 0 where
  pub year : ℕ
  pub month : ℕ
  pub day : ℕ

unfoldable pub is_leap : ℕ → Bool
is_leap year = year % 4 == 0 && (not (year % 100 == 0) || year % 400 == 0)

-- `calendar.monthrange(year, month)[1]`
unfoldable pub days_in_month : ℕ → ℕ → ℕ
unfolding is_leap
days_in_month year month =
    if month == 2
    then (if is_leap year then 29 else 28)
    else if month == 4 || (month == 6 || (month == 9 || month == 11))
    then 30
    else 31

-- What the constructor of `date` lets in.
unfoldable pub is_date : Date → Bool
is_date d =
    leb 1 d.year
    && (leb d.year 9999
        && (leb 1 d.month
            && (leb d.month 12 && (leb 1 d.day && leb d.day (days_in_month d.year d.month)))))

unfoldable pub make_date : Date → Outcome Date
make_date d = if is_date d then returned d else raised value_error

-- `x or default` for numbers: 0 is false, as a missing argument is.
abbrev pub or_number : ℕ → ℕ → ℕ
or_number x default = if x == 0 then default else x

-- `new_date`, where 0 stands for a missing argument too; `today` is what `_datetime_now` reads.
unfoldable pub new_date : Date → ℕ → ℕ → ℕ → Outcome Date
unfolding make_date
new_date today year month day = make_date (record {
  year = or_number year today.year;
  month = or_number month today.month;
  day = or_number day today.day;
})

-- The day after in the standard library's calendar; past its last day there is none.
unfoldable pub day_after : Date → Option Date
day_after d =
    if ltb d.day (days_in_month d.year d.month)
    then some (record d { day = d.day + 1 })
    else if ltb d.month 12
    then some (record { year = d.year; month = d.month + 1; day = 1 })
    else if ltb d.year 9999
    then some (record { year = d.year + 1; month = 1; day = 1 })
    else none

-- `d + TimeDelta(days=n)`, `none` where it raises OverflowError.
unfoldable pub days_after : ℕ → Date → Option Date
unfolding day_after
days_after zero d = some d
days_after (suc n) d = elim (day_after d) [ none ↦ none | some e ↦ days_after n e ]

-- `ONE_DAY`, in days
abbrev pub one_day : ℕ
one_day = 1

unfoldable pub next_day : Date → Option Date
unfolding days_after
next_day fecha = days_after one_day fecha

-- `(year, month + 1) if month < 12 else (year + 1, 1)`
abbrev pub month_after : ℕ → ℕ → ℕ × ℕ
month_after year month = if ltb month 12 then (year, month + 1) else (year + 1, 1)

unfoldable pub next_month : Date → Date → Outcome Date
unfolding new_date
next_month today fecha =
    let (year, month) = month_after fecha.year fecha.month in
    new_date today year month (min (days_in_month year month) fecha.day)

-- `text.split(c)`
split_on : ℕ → Text → List Text
split_on c [] = [] ∷ []
split_on c (x ∷ s) =
    let rest = split_on c s in
    if x == c then [] ∷ rest else elim rest [ [] ↦ (x ∷ []) ∷ [] | t ∷ ts ↦ (x ∷ t) ∷ ts ]

int_or_raise : Option ℤ → Outcome ℤ
int_or_raise none = raised value_error
int_or_raise (some n) = returned n

unfoldable pub ints : List Text → Outcome (List ℤ)
unfolding int_of int_or_raise
ints [] = returned []
ints (t ∷ ts) = chain (int_or_raise (int_of t)) λ n. chain (ints ts) λ ns. returned (n ∷ ns)

-- `(d, m, y) = parts`, turned round and read.
unpack_dmy : List Text → Outcome (List ℤ)
unfolding ints
unpack_dmy (d ∷ m ∷ y ∷ []) = ints (y ∷ m ∷ d ∷ [])
unpack_dmy parts = raised value_error

-- `dmy`: the first of the separators that the text has; `none` for `None`.
dmy_by : List ℕ → Text → Outcome (Option (List ℤ))
unfolding split_on unpack_dmy
dmy_by [] strfecha = returned none
dmy_by (c ∷ separators) strfecha =
    if ltb 1 (length (split_on c strfecha))
    then (chain (unpack_dmy (split_on c strfecha)) λ ns. returned (some ns))
    else dmy_by separators strfecha

unfoldable pub dmy : Text → Outcome (Option (List ℤ))
unfolding dmy_by
dmy strfecha = dmy_by (b'.' ∷ b'/' ∷ b'-' ∷ []) strfecha

unfoldable pub ymd : Text → Outcome (List ℤ)
unfolding ints split_on
ymd strfecha = ints (split_on b'-' strfecha)

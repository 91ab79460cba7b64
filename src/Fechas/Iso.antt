-- ===== src/Fechas/Iso.antt =====
-- A date written as `date.isoformat` writes it, and read by the parsers of src/spidercheck/fechas.py.
use spidercheck.Prelude.{
  leb, if◌then◌else◌, ℕ, ◌+◌, ◌/◌, ◌%◌, ◌≤◌, ◌<◌, ◌≡◌, refl, sym, ◌∙◌, ap, true, false, [], ◌∷◌,
  ◌++◌, some, Text, codes, map, leb, ◌==◌, arith, any, text_eq,
}
use spidercheck.Prelude.Int.{pos}
use spidercheck.Prelude.Chars.{is_digit, is_space, lstrip, strip}
use spidercheck.Prelude.Numerals.{digits_value, signed, int_of}
use spidercheck.Results.{returned}
use spidercheck.Fechas.{Date, days_in_month, is_leap, is_date, make_date}
use spidercheck.Fechas.Regex.{Spans, match_start, match, match_many, test, at_end, is_letter}
use spidercheck.Fechas.Patterns.{parsers}
use spidercheck.Fechas.Parsers.{
  group_of, int_group, date, parse_date, first_match, date_of, date_in, full_year, is_number,
  all_digits, to_year_month_day, month_number, slice,
}
use spidercheck.Fechas.Shapes.{blank, first_match-blank}

-- The last decimal digit.
abbrev pub dg : ℕ → ℕ
dg k = b'0' + k % 10

dg-digit : (k : ℕ) → is_digit (dg k) ≡ true
unfolding is_digit
dg-digit k = ground arith

dg-blank : (k : ℕ) → blank (dg k) ≡ b'0'
unfolding blank is_digit
dg-blank k = ground arith

dg-space : (k : ℕ) → is_space (dg k) ≡ false
unfolding is_space
dg-space k = ground arith

dg-minus : (k : ℕ) → (dg k == b'-') ≡ false
dg-minus k = ground arith

dg-plus : (k : ℕ) → (dg k == b'+') ≡ false
dg-plus k = ground arith

abbrev pub two : ℕ → Text
two n = dg (n / 10) ∷ dg n ∷ []

abbrev pub four : ℕ → Text
four n = dg (n / 1000) ∷ dg (n / 100) ∷ dg (n / 10) ∷ dg n ∷ []

-- `d.isoformat()`
abbrev pub iso : Date → Text
iso d = four d.year ++ (b'-' ∷ (two d.month ++ (b'-' ∷ two d.day)))

int_of-two : (n : ℕ) → n < 100 → int_of (two n) ≡ some (pos n)
unfolding int_of signed strip lstrip digits_value
int_of-two n h =
    rw
      (
        dg-space (n / 10),
        dg-space n,
        dg-minus (n / 10),
        dg-plus (n / 10),
        dg-digit (n / 10),
        dg-digit n,
      )
      (ap (λ x. some (pos x)) (omega arith))

int_of-four : (n : ℕ) → n < 10000 → int_of (four n) ≡ some (pos n)
unfolding int_of signed strip lstrip digits_value
int_of-four n h =
    rw
      (
        dg-space (n / 1000),
        dg-space n,
        dg-minus (n / 1000),
        dg-plus (n / 1000),
        dg-digit (n / 1000),
        dg-digit (n / 100),
        dg-digit (n / 10),
        dg-digit n,
      )
      (ap (λ x. some (pos x)) (omega arith))

blank-dash : blank b'-' ≡ b'-'
unfolding blank is_digit
blank-dash = refl

shape : (d : Date) → map blank (iso d) ≡ codes "0000-00-00"
shape d =
    rw
      (
        dg-blank (d.year / 1000),
        dg-blank (d.year / 100),
        dg-blank (d.year / 10),
        dg-blank d.year,
        dg-blank (d.month / 10),
        dg-blank d.month,
        dg-blank (d.day / 10),
        dg-blank d.day,
        blank-dash,
      )
      refl

strip-iso : (d : Date) → strip (iso d) ≡ iso d
unfolding strip lstrip
strip-iso d = rw (dg-space (d.year / 1000), dg-space d.day) refl

-- Where the groups match in a date of this shape.
abbrev iso_spans : Spans
iso_spans = (codes "day", 2, 0) ∷ (codes "month", 5, 3) ∷ (codes "year", 10, 6) ∷ []

match-zeros : first_match parsers (codes "0000-00-00") ≡ some iso_spans
unfolding first_match match_start match match_many test at_end is_letter is_digit any
match-zeros = refl

match-iso : (d : Date) → first_match parsers (iso d) ≡ some iso_spans
match-iso d = sym (first_match-blank (iso d)) ∙ ap (first_match parsers) (shape d) ∙ match-zeros

group_of-iso :
    (d : Date)
    → (group_of (iso d) iso_spans (codes "day") ≡ some (two d.day))
      × (group_of (iso d) iso_spans (codes "month") ≡ some (two d.month))
      × (group_of (iso d) iso_spans (codes "year") ≡ some (four d.year))
unfolding group_of slice text_eq
group_of-iso d = (refl, refl, refl)

int_group-of : (t : Text) (n : ℕ) → int_of t ≡ some (pos n) → int_group t ≡ returned n
unfolding int_group
int_group-of t n h = rw (int_group, h) refl

month_number-two : (n : ℕ) → n < 100 → month_number (two n) ≡ returned n
unfolding month_number is_number all_digits
month_number-two n h = rw (dg-digit (n / 10), dg-digit n) (int_group-of (two n) n (int_of-two n h))

year_month_day-iso :
    (d : Date)
    → d.year < 10000
    → d.month < 100
    → d.day < 100
    → to_year_month_day (iso d) iso_spans ≡ returned (record d { year = full_year d.year })
unfolding to_year_month_day
year_month_day-iso d hy hm hd =
    let (day, month, year) = group_of-iso d in
    rw
      (
        day,
        month,
        year,
        int_group-of (two d.day) d.day (int_of-two d.day hd),
        month_number-two d.month hm,
        int_group-of (four d.year) d.year (int_of-four d.year hy),
      )
      refl

days_in_month-le : (year month : ℕ) → days_in_month year month ≤ 31
unfolding days_in_month
days_in_month-le year month = ground arith

-- A valid date is within its bounds.
in_bounds : (d : Date) → is_date d ≡ true → (d.year < 10000) × (d.month < 100) × (d.day < 100)
unfolding is_date
in_bounds d h = (ground arith, ground arith, ground (arith, days_in_month-le d.year d.month))

date-valid : (d : Date) → is_date d ≡ true → date d ≡ returned d
unfolding date make_date
date-valid d h = let (y, m, k) = in_bounds d h in ground arith

-- 2000 years later a year is a leap year if it was one.
is_leap-full_year : (y : ℕ) → is_leap (full_year y) ≡ is_leap y
unfolding is_leap
is_leap-full_year y = ground arith

days_in_month-full_year : (y month : ℕ) → days_in_month (full_year y) month ≡ days_in_month y month
unfolding days_in_month is_leap
days_in_month-full_year y month = ground (arith, is_leap-full_year y)

full_year-valid :
    (d : Date) → is_date d ≡ true → is_date (record d { year = full_year d.year }) ≡ true
unfolding is_date
full_year-valid d h =
    let e = days_in_month-full_year d.year d.month in
    let f : (leb 1 (full_year d.year) ≡ true) × (leb (full_year d.year) 9999 ≡ true) =
      (ground arith, ground arith) in
    rw (f.0, f.1, e) (ground arith)

-- Every valid date, written with four digits for the year and two for the month and for the day, is
-- read by `parse_date`: as itself if its year is over 100, and otherwise as the same day 2000 years
-- later.
pub parse_date-iso :
    (d : Date)
    → is_date d ≡ true
    → parse_date (iso d)
      ≡ returned (some (record d { year = if leb d.year 100 then d.year + 2000 else d.year }))
unfolding parse_date date_of date_in
parse_date-iso d h =
    let (y, m, k) = in_bounds d h in
    rw (strip-iso d, match-iso d, year_month_day-iso d y m k, date-valid _ (full_year-valid d h))
      refl

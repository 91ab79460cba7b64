-- ===== src/Fechas/Parsers.antt =====
-- `DateParser` and `DateTimeParser` of src/spidercheck/fechas.py.
use spidercheck.Prelude.{
  ℕ, ◌+◌, ◌-◌, ◌^◌, Bool, true, false, ◌&&◌, List, [], ◌∷◌, Option, none, some, Text, codes,
  text_eq, map, length, take, drop, leb, ltb, if◌then◌else◌,
}
use spidercheck.Prelude.Int.{pos}
use spidercheck.Prelude.Chars.{is_digit, strip}
use spidercheck.Prelude.Numerals.{int_of}
use spidercheck.Results.{Outcome, returned, raised, chain, value_error, key_error, overflow_error}
use spidercheck.Fechas.{Date, make_date}
use spidercheck.Fechas.Regex.{Regex, Spans, or_try, match_start}
use spidercheck.Fechas.Months.{reverse_month}
use spidercheck.Fechas.Patterns.{parsers}

-- The text between two places, which are counted from the end.
unfoldable pub slice : Text → ℕ × ℕ → Text
slice text (from, to) = take (from - to) (drop (length text - from) text)

-- `_match.group(name)`, for a group that the pattern has; `none` where it has none.
unfoldable pub group_of : Text → Spans → Text → Option Text
unfolding slice text_eq
group_of text [] name = none
group_of text ((n, from, to) ∷ spans) name =
    let rest = group_of text spans name in
    if text_eq n name then some (slice text (from, to)) else rest

abbrev pub or_empty : Option Text → Text
or_empty none = []
or_empty (some t) = t

-- `int` of a text; those that the groups match are never negative.
unfoldable pub int_group : Text → Outcome ℕ
unfolding int_of
int_group t = elim (int_of t) [ some (pos n) ↦ returned n | _ ↦ raised value_error ]

unfoldable pub all_digits : Text → Bool
all_digits [] = true
all_digits (c ∷ s) = is_digit c && all_digits s

-- `str.isdigit`
unfoldable pub is_number : Text → Bool
unfolding all_digits is_digit
is_number [] = false
is_number (c ∷ s) = all_digits (c ∷ s)

upper_char : ℕ → ℕ
upper_char c = if leb b'a' c && leb c b'z' then c - 32 else c

unfoldable pub upper : Text → Text
unfolding upper_char
upper = map upper_char

-- `self.REVERSE_MONTH[name]`
unfoldable pub month_named : List (Text × ℕ) → Text → Outcome ℕ
month_named [] name = raised key_error
month_named ((n, k) ∷ months) name =
    let rest = month_named months name in if text_eq n name then returned k else rest

unfoldable pub month_number : Text → Outcome ℕ
unfolding is_number int_group month_named upper
month_number t = if is_number t then int_group t else month_named reverse_month (upper t)

abbrev pub full_year : ℕ → ℕ
full_year year = if leb year 100 then year + 2000 else year

-- `_to_year_month_day`
unfoldable pub to_year_month_day : Text → Spans → Outcome Date
unfolding month_number
to_year_month_day text spans =
    chain (int_group (or_empty (group_of text spans (codes "day")))) λ day.
      chain (month_number (or_empty (group_of text spans (codes "month")))) λ month.
        chain (int_group (or_empty (group_of text spans (codes "year"))))
          λ year. returned (record { year = full_year year; month = month; day = day })

pub record Time : Type 0 where
  pub hour : ℕ
  pub minute : ℕ
  pub second : ℕ

abbrev pub midnight : Time
midnight = record { hour = 0; minute = 0; second = 0 }

-- `_to_hour_minute_second`: a pattern has all three groups or none.
unfoldable pub time_from : Text → Spans → Option Text → Outcome Time
time_from text spans none = returned midnight
time_from text spans (some h) = chain (int_group h) λ hour.
    chain (int_group (or_empty (group_of text spans (codes "minute")))) λ minute.
      chain (int_group (or_empty (group_of text spans (codes "second"))))
        λ second. returned (record { hour = hour; minute = minute; second = second })

unfoldable pub to_hour_minute_second : Text → Spans → Outcome Time
unfolding time_from
to_hour_minute_second text spans = time_from text spans (group_of text spans (codes "hour"))

-- What does not fit in a C `int` raises before the range is looked at.
abbrev pub fits : ℕ → Bool
fits n = ltb n (2 ^ 31)

-- `Date(year, month, day)`
unfoldable pub date : Date → Outcome Date
date d = if fits d.year && (fits d.month && fits d.day) then make_date d else raised overflow_error

unfoldable pub is_time : Time → Bool
is_time t = ltb t.hour 24 && (ltb t.minute 60 && ltb t.second 60)

-- `DateTime(year, month, day, hour, minute, second)`
unfoldable pub date_time : Date → Time → Outcome (Date × Time)
unfolding date is_time
date_time d t =
    if fits t.hour && (fits t.minute && fits t.second)
    then (chain (date d) λ d'. if is_time t then returned (d', t) else raised value_error)
    else raised overflow_error

-- The first pattern that matches.
unfoldable pub first_match : List Regex → Text → Option Spans
unfolding match_start
first_match [] text = none
first_match (r ∷ rs) text = or_try (match_start r text) (first_match rs text)

unfoldable pub date_in : Text → Option Spans → Outcome (Option Date)
date_in text none = raised value_error
date_in text (some spans) =
    chain (to_year_month_day text spans) λ d. chain (date d) λ d'. returned (some d')

-- The text without the blanks around it; nothing is asked of an empty one.
unfoldable pub date_of : Text → Outcome (Option Date)
unfolding first_match date_in
date_of [] = returned none
date_of (c ∷ s) = date_in (c ∷ s) (first_match parsers (c ∷ s))

-- `parse_date(texto)`
unfoldable pub parse_date : Text → Outcome (Option Date)
unfolding date_of strip
parse_date texto = date_of (strip texto)

unfoldable pub date_time_in : Text → Option Spans → Outcome (Option (Date × Time))
date_time_in text none = raised value_error
date_time_in text (some spans) = chain (to_year_month_day text spans) λ d.
    chain (to_hour_minute_second text spans) λ t. chain (date_time d t) λ dt. returned (some dt)

unfoldable pub date_time_of : Text → Outcome (Option (Date × Time))
unfolding first_match date_time_in
date_time_of [] = returned none
date_time_of (c ∷ s) = date_time_in (c ∷ s) (first_match parsers (c ∷ s))

-- `parse_datetime(texto)`
unfoldable pub parse_datetime : Text → Outcome (Option (Date × Time))
unfolding date_time_of strip
parse_datetime texto = date_time_of (strip texto)

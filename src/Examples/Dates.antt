-- ===== src/Examples/Dates.antt =====
-- The calendar, at the end of a January and of a December.
use spidercheck.Prelude.{
  length, ◌≤◌, ◌+◌, ◌*◌, min, ◌≡◌, refl, true, ◌⊎◌, none, some, [], codes, ◌↔◌,
}
use spidercheck.Prelude.Chars.{strip}
use spidercheck.Results.{returned, raised, value_error}
use spidercheck.Fechas.{Date, days_in_month, is_date, next_day, next_month}
use spidercheck.Fechas.Hours.{is_hour, GoBack, StartsAt, last_hours, last_hours_lem}
use spidercheck.Fechas.Iso.{iso, parse_date-iso}
use spidercheck.Fechas.Parsed.{parse_date_lem, parse_datetime-date}
use spidercheck.Fechas.Parsers.{Time, is_time, parse_date, parse_datetime}
use spidercheck.Fechas.Calendar.{next_month_lem}

abbrev january : Date
january = record { year = 2024; month = 1; day = 31 }

abbrev new_year : Date
new_year = record { year = 2023; month = 12; day = 31 }

next_month-january :
    next_month january january ≡ returned (record { year = 2024; month = 2; day = 29 })
unfolding next_month is_date days_in_month
next_month-january = refl

january-valid : is_date january ≡ true
unfolding is_date days_in_month
january-valid = refl

new_year-valid : is_date new_year ≡ true
unfolding is_date days_in_month
new_year-valid = refl

next_month_lem_example :
    ((january.year ≡ 9999)
      × (january.month ≡ 12)
      × (next_month january january ≡ raised value_error))
    ⊎ ((d : Date) × (next_month january january ≡ returned d)
        × (is_date d ≡ true)
        × (d.year * 12 + d.month ≡ january.year * 12 + january.month + 1)
        × (d.day ≡ min (days_in_month d.year d.month) january.day))
next_month_lem_example = next_month_lem january january january-valid

parse_date-iso_example : parse_date (iso january) ≡ returned (some january)
parse_date-iso_example = parse_date-iso january january-valid

parse_date_lem_example :
    ((parse_date (codes " 1/1/2024") ≡ returned none) ↔ (strip (codes " 1/1/2024") ≡ []))
    × ((d : Date) → parse_date (codes " 1/1/2024") ≡ returned (some d) → is_date d ≡ true)
parse_date_lem_example = parse_date_lem (codes " 1/1/2024")

abbrev noon : Time
noon = record { hour = 12; minute = 0; second = 1 }

noon-read : parse_datetime (codes "2024-01-31 12:00:01") ≡ returned (some (january, noon))
unfolding parse_datetime spidercheck.Fechas.Parsers.to_year_month_day
    spidercheck.Fechas.Parsers.group_of spidercheck.Fechas.Parsers.to_hour_minute_second
    spidercheck.Fechas.Parsers.date_time spidercheck.Fechas.make_date is_date days_in_month
noon-read = refl

parse_datetime-date_example :
    (parse_date (codes "2024-01-31 12:00:01") ≡ returned (some january)) × (is_time noon ≡ true)
parse_datetime-date_example =
    parse_datetime-date (codes "2024-01-31 12:00:01") january noon noon-read

january-hour : is_hour (january, 1) ≡ true
unfolding is_date days_in_month
january-hour = refl

last_hours_lem_example :
    StartsAt (january, 1) 4 (last_hours 4 (january, 1)).0
    × GoBack (last_hours 4 (january, 1)).0
    × (length (last_hours 4 (january, 1)).0 ≤ 4)
    × ((last_hours 4 (january, 1)).1 ≡ none → length (last_hours 4 (january, 1)).0 ≡ 4)
last_hours_lem_example = last_hours_lem 4 (january, 1) january-hour

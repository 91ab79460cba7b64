-- ===== src/Fechas/Spans.antt =====
-- Time spans, `new_date_and_time`, `this_year` and `next_year` of src/spidercheck/fechas.py. What
-- `_datetime_now` reads is an argument; a time span is its number of seconds.
use spidercheck.Prelude.{ℕ, ◌+◌, ◌*◌, Bool, ◌&&◌, if◌then◌else◌}
use spidercheck.Prelude.Int.{ℤ, pos, negsuc, leb_ℤ}
use spidercheck.Results.{Outcome, returned, raised, overflow_error}
use spidercheck.Fechas.{Date}
use spidercheck.Fechas.Parsers.{Time, date_time}

unfoldable pub new_date_and_time : Date → Time → Outcome (Date × Time)
new_date_and_time d t = date_time d t

-- The whole number of days of a span lies between -999999999 and 999999999.
unfoldable pub is_span : ℤ → Bool
unfolding leb_ℤ
is_span n = leb_ℤ (negsuc 86399999913599) n && leb_ℤ n (pos 86399999999999)

-- `TimeDelta(seconds=seconds)`
unfoldable pub num_seconds : ℤ → Outcome ℤ
unfolding is_span
num_seconds seconds = if is_span seconds then returned seconds else raised overflow_error

-- The seconds of so many days.
unfoldable pub seconds_in : ℤ → ℤ
seconds_in (pos days) = pos (days * 86400)
seconds_in (negsuc days) = negsuc (days * 86400 + 86399)

-- `TimeDelta(days=days)`
unfoldable pub num_days : ℤ → Outcome ℤ
unfolding seconds_in num_seconds
num_days days = num_seconds (seconds_in days)

abbrev pub this_year : Date → ℕ
this_year today = today.year

abbrev pub next_year : Date → ℕ
next_year today = this_year today + 1

-- ===== src/Fechas/Patterns.antt =====
-- The patterns of `BaseDateParser` in src/spidercheck/fechas.py.
use spidercheck.Prelude.{ℕ, zero, suc, List, [], ◌∷◌, codes}
use spidercheck.Fechas.Regex.{
  Class, digit, letter, alnum, word, char, one_of, dot, Regex, one, many, maybe, seq, group, end,
}

-- One after the other.
abbrev pub in_order : List Regex → Regex
in_order [] = end
in_order (r ∷ []) = r
in_order (r ∷ q ∷ rs) = seq r (in_order (q ∷ rs))

-- `c{n + 1}`
abbrev pub times : ℕ → Class → Regex
times zero c = one c
times (suc n) c = seq (one c) (times n c)

abbrev pub lit : ℕ → Regex
lit c = one (char c)

abbrev pub day : Regex → Regex
day r = group (codes "day") r

abbrev pub month : Regex → Regex
month r = group (codes "month") r

abbrev pub year : Regex → Regex
year r = group (codes "year") r

abbrev pub hour : Regex → Regex
hour r = group (codes "hour") r

abbrev pub minute : Regex → Regex
minute r = group (codes "minute") r

abbrev pub second : Regex → Regex
second r = group (codes "second") r

-- `[\\\/:\.,\- ]`
abbrev pub separators : Class
separators = one_of (b'\\' ∷ b'/' ∷ b':' ∷ b'.' ∷ b',' ∷ b'-' ∷ b' ' ∷ [])

-- `[/\-]`
abbrev pub slash_or_dash : Class
slash_or_dash = one_of (b'/' ∷ b'-' ∷ [])

abbrev pub digits2 : Regex
digits2 = times 1 digit

abbrev pub digits4 : Regex
digits4 = times 3 digit

-- `\d\d?`
abbrev pub one_or_two : Regex
one_or_two = seq (one digit) (maybe (one digit))

-- `(\w\w\w, )?`
abbrev pub weekday : Regex
weekday = maybe (in_order (one word ∷ one word ∷ one word ∷ lit b',' ∷ lit b' ' ∷ []))

-- `(?:[\+\-]\d\d:\d\d)?`
abbrev pub offset : Regex
offset = maybe (in_order (one (one_of (b'+' ∷ b'-' ∷ [])) ∷ digits2 ∷ lit b':' ∷ digits2 ∷ []))

abbrev pub pat_dmy : Regex
pat_dmy = in_order (
    day (many digit)
    ∷ many separators
    ∷ month (many alnum)
    ∷ one separators
    ∷ year digits4
    ∷ end
    ∷ [])

abbrev pub pat_iso8601_date_ext : Regex
pat_iso8601_date_ext =
    in_order (year digits4 ∷ lit b'-' ∷ month digits2 ∷ lit b'-' ∷ day digits2 ∷ end ∷ [])

abbrev pub pat_iso8601_datetime_ext_basic : Regex
pat_iso8601_datetime_ext_basic = in_order (
    year digits4
    ∷ lit b'-'
    ∷ month digits2
    ∷ lit b'-'
    ∷ day digits2
    ∷ one (one_of (b' ' ∷ b'T' ∷ []))
    ∷ hour digits2
    ∷ lit b':'
    ∷ minute digits2
    ∷ lit b':'
    ∷ second digits2
    ∷ offset
    ∷ end
    ∷ [])

abbrev pub pat_iso8601_date_basic : Regex
pat_iso8601_date_basic = in_order (year digits4 ∷ month digits2 ∷ day digits2 ∷ end ∷ [])

abbrev pub pat_iso8601_datetime_basic : Regex
pat_iso8601_datetime_basic = in_order (
    year digits4
    ∷ month digits2
    ∷ day digits2
    ∷ hour digits2
    ∷ minute digits2
    ∷ second digits2
    ∷ end
    ∷ [])

abbrev pub pat_rfc822_datetime : Regex
pat_rfc822_datetime = in_order (
    weekday
    ∷ day (many digit)
    ∷ lit b' '
    ∷ month (many word)
    ∷ lit b' '
    ∷ year (many digit)
    ∷ lit b' '
    ∷ hour (many digit)
    ∷ lit b':'
    ∷ minute (many digit)
    ∷ lit b':'
    ∷ second (many digit)
    ∷ many dot
    ∷ end
    ∷ [])

abbrev pub pat_rfc822_date : Regex
pat_rfc822_date = in_order (
    weekday
    ∷ day (many digit)
    ∷ lit b' '
    ∷ month (many word)
    ∷ lit b' '
    ∷ year (many digit)
    ∷ end
    ∷ [])

abbrev pub pat_fecha_completa : Regex
pat_fecha_completa = in_order (
    day (many digit)
    ∷ lit b' '
    ∷ lit b'd'
    ∷ lit b'e'
    ∷ lit b' '
    ∷ month (many letter)
    ∷ lit b' '
    ∷ lit b'd'
    ∷ lit b'e'
    ∷ lit b' '
    ∷ year (many digit)
    ∷ end
    ∷ [])

abbrev pub pat_fecha_hora : Regex
pat_fecha_hora = in_order (
    day (many digit)
    ∷ lit b'-'
    ∷ month (many digit)
    ∷ lit b'-'
    ∷ year (many digit)
    ∷ lit b' '
    ∷ hour digits2
    ∷ lit b':'
    ∷ minute digits2
    ∷ lit b':'
    ∷ second digits2
    ∷ one dot
    ∷ many digit
    ∷ end
    ∷ [])

abbrev pub pat_ddmmyyyyhhmmss : Regex
pat_ddmmyyyyhhmmss = in_order (
    day one_or_two
    ∷ one slash_or_dash
    ∷ month one_or_two
    ∷ one slash_or_dash
    ∷ year digits4
    ∷ lit b' '
    ∷ hour (many digit)
    ∷ lit b':'
    ∷ minute (many digit)
    ∷ lit b':'
    ∷ second (many digit)
    ∷ end
    ∷ [])

abbrev pub pat_ddmmyyhhmmss : Regex
pat_ddmmyyhhmmss = in_order (
    day one_or_two
    ∷ one slash_or_dash
    ∷ month one_or_two
    ∷ one slash_or_dash
    ∷ year digits2
    ∷ lit b' '
    ∷ hour (many digit)
    ∷ lit b':'
    ∷ minute (many digit)
    ∷ lit b':'
    ∷ second (many digit)
    ∷ end
    ∷ [])

-- `PARSERS`
abbrev pub parsers : List Regex
parsers =
    pat_dmy ∷ pat_iso8601_datetime_ext_basic ∷ pat_iso8601_datetime_basic ∷ pat_iso8601_date_basic
    ∷ pat_iso8601_date_ext ∷ pat_rfc822_datetime ∷ pat_rfc822_date ∷ pat_fecha_completa
    ∷ pat_fecha_hora ∷ pat_ddmmyyyyhhmmss ∷ pat_ddmmyyhhmmss ∷ []

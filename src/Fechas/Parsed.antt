-- ===== src/Fechas/Parsed.antt =====
-- What the parsers of src/spidercheck/fechas.py give.
use spidercheck.Prelude.{
  ◌≡◌, refl, ap, ◌∙◌, ◌↔◌, true, ◌&&◌, [], ◌∷◌, Option, none, some, Text, arith, inl, inr,
  Bool-cases,
}
use spidercheck.Prelude.Chars.{strip}
use spidercheck.Results.{returned, chain-eq-returned}
use spidercheck.Fechas.{Date, is_date, make_date}
use spidercheck.Fechas.Regex.{Spans}
use spidercheck.Fechas.Parsers.{
  Time, fits, is_time, date, date_time, to_year_month_day, to_hour_minute_second, date_in, date_of,
  parse_date, date_time_in, date_time_of, parse_datetime,
}

date-returned : (d d' : Date) → date d ≡ returned d' → (d ≡ d') × (is_date d ≡ true)
unfolding date make_date
date-returned d d' h = (ground arith, ground arith)

date_time-returned :
    (d d' : Date) (t t' : Time)
    → date_time d t ≡ returned (d', t')
    → (date d ≡ returned d') × (t ≡ t') × (is_time t' ≡ true)
unfolding date_time
date_time-returned d d' t t' h =
    elim (Bool-cases (fits t.hour && (fits t.minute && fits t.second))) [
      | inr wide ↦ let k = rw wide at h in cc
      | inl narrow ↦
          let (x, e, f) = chain-eq-returned (date d) _ (rw narrow at h) in
          elim (Bool-cases (is_time t)) [
            | inr late ↦ let k = rw late at f in cc
            | inl valid ↦
                let k : (x ≡ d') × (t ≡ t') =
                  (let g = rw valid at f in (ground arith, ground arith)) in
                (e ∙ ap returned k.0, k.1, rw (← k.1) valid)
          ]
    ]

date_in-valid :
    (text : Text) (found : Option Spans) (d : Date)
    → date_in text found ≡ returned (some d)
    → is_date d ≡ true
unfolding date_in
date_in-valid text none d h = cc
date_in-valid text (some spans) d h =
    let (x, e, f) = chain-eq-returned (to_year_month_day text spans) _ h in
    let (y, g, k) = chain-eq-returned (date x) _ f in
    let (same, valid) = date-returned x y g in
    let z : y ≡ d = ground arith in rw (← z, ← same) valid

date_in-some : (text : Text) (found : Option Spans) → date_in text found ≡ returned none → ⊥
unfolding date_in
date_in-some text none h = cc
date_in-some text (some spans) h =
    let (x, e, f) = chain-eq-returned (to_year_month_day text spans) _ h in
    let (y, g, k) = chain-eq-returned (date x) _ f in cc

date_of-none : (s : Text) → (date_of s ≡ returned none) ↔ (s ≡ [])
unfolding date_of
date_of-none [] = (λ h. refl, λ h. refl)
date_of-none (c ∷ s) = (λ h. absurd (date_in-some _ _ h), λ h. cc)

date_of-valid : (s : Text) (d : Date) → date_of s ≡ returned (some d) → is_date d ≡ true
unfolding date_of
date_of-valid [] d h = cc
date_of-valid (c ∷ s) d h = date_in-valid _ _ d h

-- For every text: `parse_date` returns `None` exactly if the text is blank, and each date that it
-- returns is a date of the calendar.
pub parse_date_lem :
    (texto : Text)
    → ((parse_date texto ≡ returned none) ↔ (strip texto ≡ []))
      × ((d : Date) → parse_date texto ≡ returned (some d) → is_date d ≡ true)
unfolding parse_date
parse_date_lem texto = (date_of-none (strip texto), date_of-valid (strip texto))

date_time_in-date :
    (text : Text) (found : Option Spans) (d : Date) (t : Time)
    → date_time_in text found ≡ returned (some (d, t))
    → (date_in text found ≡ returned (some d)) × (is_time t ≡ true)
unfolding date_time_in date_in
date_time_in-date text none d t h = cc
date_time_in-date text (some spans) d t h =
    let (x, e, f) = chain-eq-returned (to_year_month_day text spans) _ h in
    let (y, g, k) = chain-eq-returned (to_hour_minute_second text spans) _ f in
    let ((d', t'), l, m) = chain-eq-returned (date_time x y) _ k in
    let (a, b, c) = date_time-returned x d' y t' l in
    let same : (d' ≡ d) × (t' ≡ t) = (ground arith, ground arith) in
    (rw (e, a, same.0) refl, rw (← same.1) c)

date_time_of-date :
    (s : Text) (d : Date) (t : Time)
    → date_time_of s ≡ returned (some (d, t))
    → (date_of s ≡ returned (some d)) × (is_time t ≡ true)
unfolding date_time_of date_of
date_time_of-date [] d t h = cc
date_time_of-date (c ∷ s) d t h = date_time_in-date _ _ d t h

-- Where `parse_datetime` returns a date and a time, `parse_date` returns the same date, and the time
-- is one of a day of 24 hours.
pub parse_datetime-date :
    (texto : Text) (d : Date) (t : Time)
    → parse_datetime texto ≡ returned (some (d, t))
    → (parse_date texto ≡ returned (some d)) × (is_time t ≡ true)
unfolding parse_datetime parse_date
parse_datetime-date texto d t h = date_time_of-date (strip texto) d t h

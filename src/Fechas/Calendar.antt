-- ===== src/Fechas/Calendar.antt =====
-- `next_month` of src/spidercheck/fechas.py stays in the calendar and goes one step.
use spidercheck.Prelude.{
  ℕ, ◌+◌, ◌*◌, ◌≤◌, ◌<◌, min, ◌≡◌, refl, ◌∙◌, true, false, ◌⊎◌, arith, ltb, if◌then◌else◌, inl, inr,
  Bool-cases,
}
use spidercheck.Results.{returned, raised, value_error}
use spidercheck.Fechas.{Date, days_in_month, is_date, make_date, or_number, new_date, next_month}

days_in_month_bounds :
    (year month : ℕ) → (28 ≤ days_in_month year month) × (days_in_month year month ≤ 31)
unfolding days_in_month
days_in_month_bounds year month = ground arith

days_in_month-december : (year : ℕ) → days_in_month year 12 ≡ 31
unfolding days_in_month
days_in_month-december year = refl

is_date_bounds :
    (d : Date)
    → is_date d ≡ true
    → (1 ≤ d.year)
      × (d.year ≤ 9999)
      × (1 ≤ d.month)
      × (d.month ≤ 12)
      × (1 ≤ d.day)
      × (d.day ≤ days_in_month d.year d.month)
unfolding is_date
is_date_bounds d h = ground arith

is_date_of :
    (d : Date)
    → 1 ≤ d.year
    → d.year ≤ 9999
    → 1 ≤ d.month
    → d.month ≤ 12
    → 1 ≤ d.day
    → d.day ≤ days_in_month d.year d.month
    → is_date d ≡ true
unfolding is_date
is_date_of d a b c e f g = ground arith

is_date-year : (d : Date) → 9999 < d.year → is_date d ≡ false
unfolding is_date
is_date-year d h = ground arith

or_number-pos : (x default : ℕ) → 1 ≤ x → or_number x default ≡ x
or_number-pos x default h = ground arith

-- The parts given to `new_date` are none of them 0.
new_date-eq :
    (today d : Date)
    → 1 ≤ d.year
    → 1 ≤ d.month
    → 1 ≤ d.day
    → new_date today d.year d.month d.day ≡ (if is_date d then returned d else raised value_error)
unfolding new_date make_date
new_date-eq today d a b c =
    rw
      (
        or_number-pos d.year today.year a,
        or_number-pos d.month today.month b,
        or_number-pos d.day today.day c,
      )
      refl

-- For every date, either it lies in December 9999 and `next_month` raises `ValueError`, or
-- `next_month` returns a date of the month after, whose day is that of the date, or the last day of
-- the month where that is smaller.
pub next_month_lem :
    (today fecha : Date)
    → is_date fecha ≡ true
    → ((fecha.year ≡ 9999) × (fecha.month ≡ 12) × (next_month today fecha ≡ raised value_error))
      ⊎ ((d : Date) × (next_month today fecha ≡ returned d)
          × (is_date d ≡ true)
          × (d.year * 12 + d.month ≡ fecha.year * 12 + fecha.month + 1)
          × (d.day ≡ min (days_in_month d.year d.month) fecha.day))
unfolding next_month
next_month_lem today fecha valid =
    let (a, b, c, e, f, g) = is_date_bounds fecha valid in
    elim (Bool-cases (ltb fecha.month 12)) [
      | inl early ↦
          let days = days_in_month fecha.year (fecha.month + 1) in
          let bounds = days_in_month_bounds fecha.year (fecha.month + 1) in
          let d : Date = record {
            year = fecha.year;
            month = fecha.month + 1;
            day = min days fecha.day;
          } in
          let ok : is_date d ≡ true =
            is_date_of d a b (omega arith) (ground arith) (omega arith) (omega arith) in
          let made = new_date-eq today d a (omega arith) (omega arith) in
          inr (d, rw early (made ∙ rw ok refl), ok, omega arith, refl)
      | inr last ↦
          let days = days_in_month (fecha.year + 1) 1 in
          let bounds = days_in_month_bounds (fecha.year + 1) 1 in
          let d : Date = record { year = fecha.year + 1; month = 1; day = min days fecha.day } in
          let made = new_date-eq today d (omega arith) (omega arith) (omega arith) in
          let december : fecha.month ≡ 12 = ground arith in
          elim (Bool-cases (ltb fecha.year 9999)) [
            | inl more ↦
                let ok : is_date d ≡ true =
                  is_date_of d (omega arith) (ground arith) (omega arith) (omega arith)
                    (omega arith) (omega arith) in
                inr (d, rw last (made ∙ rw ok refl), ok, omega arith, refl)
            | inr over ↦
                inl
                  (ground arith, december, rw last (made ∙ rw (is_date-year d (ground arith)) refl))
          ]
    ]

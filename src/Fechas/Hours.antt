-- ===== src/Fechas/Hours.antt =====
-- `last_hours` of src/spidercheck/fechas.py. What `_datetime_now` reads is an argument.
use mathlib.Core.Option
use spidercheck.Prelude.{
  ℕ, zero, suc, ◌+◌, ◌-◌, ◌≤◌, ◌≡◌, refl, ap, Bool, true, false, ◌&&◌, List, [], ◌∷◌, Option, none,
  some, arith, length, ltb, if◌then◌else◌, inl, inr, Bool-cases, Option-cases,
}
use spidercheck.Results.{Exc, overflow_error}
use spidercheck.Fechas.{Date, days_in_month, is_date, day_after}

-- A date with an hour, as `last_hours` yields them.
abbrev pub Hour : Type 0
Hour = Date × ℕ

-- A day before; `none` in front of the first day of the calendar.
unfoldable pub prev_day : Date → Option Date
prev_day d =
    if ltb 1 d.day
    then some (record d { day = d.day - 1 })
    else if ltb 1 d.month
    then some
        (record { year = d.year; month = d.month - 1; day = days_in_month d.year (d.month - 1) })
    else if ltb 1 d.year
    then some (record { year = d.year - 1; month = 12; day = 31 })
    else none

-- `now - ONE_HOUR`, which raises OverflowError in front of the first hour of the calendar.
unfoldable pub hour_before : Hour → Option Hour
unfolding prev_day
hour_before (d, h) = if ltb 0 h then some (d, h - 1) else Option.map (λ e. (e, 23)) (prev_day d)

-- `now + ONE_HOUR`
unfoldable pub hour_after : Hour → Option Hour
hour_after (d, h) = if ltb h 23 then some (d, h + 1) else Option.map (λ e. (e, 0)) (day_after d)

-- What the generator yields, and the exception that ends it, if one does.
unfoldable pub last_hours : ℕ → Hour → List Hour × Option Exc
last_hours zero now = ([], none)
last_hours (suc size) now = elim (hour_before now) [
  | none ↦ (now ∷ [], some overflow_error)
  | some before ↦ let later = last_hours size before in (now ∷ later.0, later.1)
]

days-bounds : (year month : ℕ) → (28 ≤ days_in_month year month) × (days_in_month year month ≤ 31)
unfolding days_in_month
days-bounds year month = (ground arith, ground arith)

december-days : (year : ℕ) → days_in_month year 12 ≡ 31
unfolding days_in_month
december-days year = refl

abbrev Undone : Date → Date → Type 0
Undone p d = (day_after p ≡ some d) × (is_date p ≡ true)

module _ (d : Date) (valid : is_date d ≡ true) where
  undo-day : ltb 1 d.day ≡ true → Undone (record d { day = d.day - 1 }) d
  unfolding day_after is_date
  undo-day inside =
      let e : d.day - 1 + 1 ≡ d.day = ground arith in
      let f : ltb (d.day - 1) (days_in_month d.year d.month) ≡ true = ground arith in
      (rw (f, e) refl, ground arith)

  undo-month :
      ltb 1 d.day ≡ false
      → ltb 1 d.month ≡ true
      → Undone
          (record { year = d.year; month = d.month - 1; day = days_in_month d.year (d.month - 1) })
          d
  unfolding day_after is_date
  undo-month first_day later =
      let days = days_in_month d.year (d.month - 1) in
      let (few, many) = days-bounds d.year (d.month - 1) in
      let e : d.month - 1 + 1 ≡ d.month = ground arith in
      let f : ltb days days ≡ false = ground arith in
      let g : ltb (d.month - 1) 12 ≡ true = ground arith in
      let k : d.day ≡ 1 = ground arith in (rw (f, g, e, ← k) refl, ground arith)

  undo-year :
      ltb 1 d.day ≡ false
      → ltb 1 d.month ≡ false
      → ltb 1 d.year ≡ true
      → Undone (record { year = d.year - 1; month = 12; day = 31 }) d
  unfolding day_after is_date
  undo-year first_day january more =
      let e : d.year - 1 + 1 ≡ d.year = ground arith in
      let f : ltb (d.year - 1) 9999 ≡ true = ground arith in
      let k : (d.month ≡ 1) × (d.day ≡ 1) = (ground arith, ground arith) in
      let m = december-days (d.year - 1) in (rw (m, f, e, k.0, k.1) refl, ground arith)

day_after-prev_day : (d p : Date) → is_date d ≡ true → prev_day d ≡ some p → Undone p d
unfolding prev_day
day_after-prev_day d p valid h = elim (Bool-cases (ltb 1 d.day)) [
  | inl inside ↦
      let e : record d { day = d.day - 1 } ≡ p = ground (arith, rw inside at h) in
      rw (← e) (undo-day d valid inside)
  | inr first_day ↦ elim (Bool-cases (ltb 1 d.month)) [
    | inl later ↦
        let k = rw (first_day, later) at h in
        let e : record {
          year = d.year;
          month = d.month - 1;
          day = days_in_month d.year (d.month - 1);
        }
            ≡ p =
          ground arith in
        rw (← e) (undo-month d valid first_day later)
    | inr january ↦ elim (Bool-cases (ltb 1 d.year)) [
      | inl more ↦
          let k = rw (first_day, january, more) at h in
          let e : record { year = d.year - 1; month = 12; day = 31 } ≡ p = ground arith in
          rw (← e) (undo-year d valid first_day january more)
      | inr start ↦ let e = rw (first_day, january, start) at h in cc
    ]
  ]
]

abbrev pub is_hour : Hour → Bool
is_hour (d, h) = is_date d && ltb h 24

-- An hour after the hour before is the hour.
abbrev Returns : Hour → Hour → Type 0
Returns y x = (hour_after y ≡ some x) × (is_hour y ≡ true)

hour_after-midnight :
    (d : Date) (o : Option Date) (y : Hour)
    → ((p : Date) → o ≡ some p → Undone p d)
    → Option.map (λ e. (e, 23)) o ≡ some y
    → Returns y (d, 0)
unfolding hour_after
hour_after-midnight d none y back h = cc
hour_after-midnight d (some p) y back h =
    let (next, valid) = back p refl in
    let e : (p, 23) ≡ y = ground arith in rw (← e) (rw next refl, rw valid refl)

hour_after-hour_before : (x y : Hour) → is_hour x ≡ true → hour_before x ≡ some y → Returns y x
unfolding hour_before hour_after
hour_after-hour_before (d, zero) y valid h =
    hour_after-midnight d (prev_day d) y (λ p e. day_after-prev_day d p (ground arith) e) h
hour_after-hour_before (d, suc n) y valid h =
    let k : suc n - 1 ≡ n = omega arith in
    let e : (d, n) ≡ y = ground arith in
    let early : ltb n 23 ≡ true = ground arith in
    rw (← e) (rw early (ap (λ m. some (d, m)) (omega arith)), ground arith)

-- Each hour is followed by the hour before it, and each is one of the calendar.
abbrev pub GoBack : List Hour → Type 0
GoBack [] = Unit
GoBack (x ∷ []) = is_hour x ≡ true
GoBack (x ∷ y ∷ xs) = (is_hour x ≡ true) × (hour_after y ≡ some x) × GoBack (y ∷ xs)

last_hours-stop :
    (size : ℕ) (x : Hour)
    → hour_before x ≡ none
    → last_hours (suc size) x ≡ (x ∷ [], some overflow_error)
unfolding last_hours
last_hours-stop size x h = rw (last_hours, h) refl

last_hours-more :
    (size : ℕ) (x y : Hour)
    → hour_before x ≡ some y
    → last_hours (suc size) x ≡ (x ∷ (last_hours size y).0, (last_hours size y).1)
unfolding last_hours
last_hours-more size x y h = rw (last_hours, h) refl

go_back :
    (size : ℕ) (x y : Hour)
    → is_hour x ≡ true
    → hour_after y ≡ some x
    → GoBack (last_hours size y).0
    → GoBack (x ∷ (last_hours size y).0)
go_back zero x y valid after rest = unfold last_hours in valid
go_back (suc size) x y valid after rest = elim (Option-cases (hour_before y)) [
  | inl start ↦ let e = last_hours-stop size y start in rw e (valid, after, rw e at rest)
  | inr (z, before) ↦ let e = last_hours-more size y z before in rw e (valid, after, rw e at rest)
]

-- What it yields first is the hour it is given.
abbrev pub StartsAt : Hour → ℕ → List Hour → Type 0
StartsAt now zero hours = hours ≡ []
StartsAt now (suc size) [] = ⊥
StartsAt now (suc size) (x ∷ hours) = x ≡ now

-- For an hour of the calendar, `last_hours` yields at most `size` hours, each of them followed by
-- the hour before it. The first is the hour given, which is there if `size` is not 0. If no exception ends
-- it, it yields `size` of them.
pub last_hours_lem :
    (size : ℕ) (now : Hour)
    → is_hour now ≡ true
    → StartsAt now size (last_hours size now).0
      × GoBack (last_hours size now).0
      × (length (last_hours size now).0 ≤ size)
      × ((last_hours size now).1 ≡ none → length (last_hours size now).0 ≡ size)
last_hours_lem zero now valid = unfold last_hours in (refl, tt, omega arith, λ e. refl)
last_hours_lem (suc size) now valid = elim (Option-cases (hour_before now)) [
  | inl start ↦ rw (last_hours-stop size now start) (refl, valid, omega arith, λ e. cc)
  | inr (y, before) ↦
      let (after, valid') = hour_after-hour_before now y valid before in
      let (starts, back, few, all) = last_hours_lem size y valid' in
      rw (last_hours-more size now y before)
        (refl, go_back size now y valid after back, omega (arith, few), λ e. ap suc (all e))
]

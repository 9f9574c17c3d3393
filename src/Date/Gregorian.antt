-- ===== src/Date/Gregorian.antt =====
-- `daysOfDate` (src/sparam.cpp) against the Gregorian calendar, whose day numbers are computed here
-- without the code's own months and leap years.
use pparam.Prelude.{
  ℕ, zero, suc, ◌+◌, ◌-◌, ◌*◌, ◌/◌, ◌%◌, ◌≤◌, ◌<◌, ◌≡◌, refl, true, some, if◌then◌else◌, ltb,
  Bool-cases, inl, inr, arith,
}
use pparam.Time.{u16}
use pparam.Date.{Date, date, is_leap_year, days_of_month, days_of_date, is_valid}
use pparam.Date.Order.{is_valid-InRange}
use pparam.Date.Days.{days_before_month, days_of_date_ends, before_year}

-- The day number in the Gregorian calendar, 1 for 0001/01/01. The year is counted from March on, so that
-- a leap day is its last day, and the months then begin at the whole part of 30.6 days each.
abbrev pub ordinal : Date → ℕ
ordinal t =
    let y = if ltb t.month 3 then t.year - 1 else t.year in
    let months = (153 * ((t.month + 9) % 12) + 2) / 5 in
    y * 365 + y / 4 - y / 100 + y / 400 + months + t.day - 306

-- The day by which a year is longer than 365 days, if it is.
abbrev pub extra_day : ℕ → ℕ
extra_day y = ordinal (date (suc y) 1 1) - ordinal (date y 1 1) - 365

abbrev leap : ℕ → ℕ
leap y = if is_leap_year y then 1 else 0

extra_day-leap : (y : ℕ) → 1 ≤ y → extra_day y ≡ leap y
unfolding is_leap_year
extra_day-leap y h = ground arith

year_step :
    (y : ℕ)
    → 1 ≤ y
    → y * 365 + y / 4 - y / 100 + y / 400
      ≡ (y - 1) * 365 + (y - 1) / 4 - (y - 1) / 100 + (y - 1) / 400 + 365 + leap y
unfolding is_leap_year
year_step y h = ground arith

month_starts :
    (y m : ℕ)
    → 1 ≤ m
    → m ≤ 12
    → days_before_month y m + (if ltb m 3 then 306 else 0)
      ≡ (153 * ((m + 9) % 12) + 2) / 5 + (if ltb m 3 then 0 else 59 + leap y)
unfolding days_of_month
month_starts y zero h k = absurd (omega arith)
month_starts y (suc zero) h k = refl
month_starts y (suc (suc m)) h k =
    ground (arith, month_starts y (suc m) (omega arith) (omega arith))

-- On valid dates, whose year is an unsigned short, `daysOfDate` is the Gregorian day number, but for
-- three terms: it adds a day for each full century, takes none back for each fourth one, and adds another day in the year after a
-- leap year.
pub days_of_date-ordinal :
    (t : Date)
    → is_valid t ≡ true
    → t.year < u16
    → (n : ℕ) × (days_of_date t ≡ some n)
      × (n + (t.year - 1) / 400 ≡ ordinal t + (t.year - 1) / 100 + extra_day (t.year - 1))
days_of_date-ordinal t v k =
    let r = is_valid-InRange t v in
    let starts = month_starts t.year t.month r.1 r.2 in
    let before = before_year t.year (omega arith) k in
    let extra = extra_day-leap (t.year - 1) (omega arith) in
    let positive : 1 ≤ t.year = omega arith in
    (
      _,
      days_of_date_ends t (omega arith),
      elim (Bool-cases (ltb t.month 3)) [
        | inl early ↦ rw (early, extra) (omega (arith, before, rw early at starts))
        | inr late ↦
            rw (late, extra) (omega (arith, before, rw late at starts, year_step t.year positive))
      ],
    )

-- ===== src/Examples/Calendar.antt =====
-- Runs of the dates and times of src/sparam.cpp.
use pparam.Prelude.{
  ℕ, ◌+◌, ◌*◌, ◌%◌, ◌/◌, ◌≤◌, ◌<◌, ◌≡◌, refl, true, none, some, Text, codes, length, ◌==◌,
  if◌then◌else◌, arith,
}
use pparam.Prelude.Int.{pos}
use pparam.Exception.{ok}
use pparam.Time
use pparam.Time.{Time, time, seconds_of_time, add, add_minute}
use pparam.Time.Sums.{add_seconds}
use pparam.Date
use pparam.Date.{Date, date, days_of_date, is_leap_year, days_of_month, plus, get_weekday}
use pparam.Date.Days.{new_year_minus}
use pparam.Date.Gregorian.{ordinal, extra_day, days_of_date-ordinal}
use pparam.Prelude.Scan.{sprintf_into}
use pparam.Date.Printed.{length-value_date}
use pparam.DateTime
use pparam.DateTime.{DateTime}
use pparam.DateTime.Printed.{assign-value_date_time}

times : Unit {0}
unfolding Time.is_valid Time.less Time.plus add seconds_of_time Time.minus add_minute Time.value
    Time.printed sprintf_into Time.assign
times = tt

abbrev late : Time
late = time 23 50 40

abbrev early : Time
early = time 0 15 30

late-is_valid : Time.is_valid late ≡ true
unfolding times
late-is_valid = refl

early-is_valid : Time.is_valid early ≡ true
unfolding times
early-is_valid = refl

time_runs :
    (add late early ≡ (time 0 6 10, 1))
    × (Time.minus late early ≡ pos 1490)
    × (add_minute 20 late ≡ (time 0 10 40, 1))
unfolding times
time_runs = (refl, refl, refl)

add_seconds_example :
    (Time.is_valid (add late early).0 ≡ true)
    × ((add late early).1 ≤ 1)
    × (seconds_of_time (add late early).0 + 86400 * (add late early).1
        ≡ seconds_of_time late + seconds_of_time early)
    × (Time.plus late early ≡ (add late early).0)
add_seconds_example = add_seconds late early late-is_valid early-is_valid

dates : Unit {0}
unfolding Date.is_valid days_of_month is_leap_year days_of_date Date.minus plus Date.value
    Date.printed sprintf_into Date.assign get_weekday Date.less
dates = tt

abbrev leap_day : Date
leap_day = date 2024 2 29

abbrev later_day : Date
later_day = date 2024 11 5

leap_day-is_valid : Date.is_valid leap_day ≡ true
unfolding dates
leap_day-is_valid = refl

later_day-is_valid : Date.is_valid later_day ≡ true
unfolding dates
later_day-is_valid = refl

date_runs :
    (plus (date 2000 3 20) (date 10 1 20) ≡ date 2010 5 10)
    × (plus (date 2000 12 5) (date 1900 12 5) ≡ date 3902 0 10)
    × (Date.value leap_day ≡ some (codes "2024/02/29"))
    × (Date.value (date 12024 2 29) ≡ none)
    × (get_weekday (date 1924 12 26) ≡ some 0)
unfolding dates
date_runs = (refl, refl, refl, refl, refl)

days_of_date-ordinal_example :
    (n : ℕ) × (days_of_date leap_day ≡ some n)
    × (n + 2023 / 400 ≡ ordinal leap_day + 2023 / 100 + extra_day 2023)
days_of_date-ordinal_example = days_of_date-ordinal leap_day leap_day-is_valid (omega arith)

-- 2000/03/01 is day 730180 of the calendar, 1900 has no leap day, 2000 has one.
ordinal_runs :
    (ordinal (date 2000 3 1) ≡ 730180)
    × (ordinal (date 1 1 1) ≡ 1)
    × (extra_day 1900 ≡ 0)
    × (extra_day 2000 ≡ 1)
ordinal_runs = (refl, refl, refl, refl)

new_year_minus_example :
    Date.minus (date 2025 1 1) (date 2024 12 31)
    ≡ some (pos (if 2024 % 4 == 0 then 2 else if is_leap_year 2023 then 0 else 1))
new_year_minus_example = new_year_minus 2024 (omega arith) (omega arith)

short-is_valid : Date.is_valid (date 2000 12 5) ≡ true
unfolding dates
short-is_valid = refl

length-value_date_example :
    (2024 < 10000
      → (Date.value leap_day ≡ some (Date.printed leap_day))
        × (length (Date.printed leap_day) ≡ 10))
    × (10000 ≤ 2024 → (Date.value leap_day ≡ none) × (11 ≤ length (Date.printed leap_day)))
length-value_date_example = length-value_date leap_day leap_day-is_valid

abbrev night : DateTime
night = record { date = leap_day; time = late }

assign-value_date_time_example :
    (s : Text) × (DateTime.value night ≡ some s)
    × (DateTime.assign early s DateTime.reset ≡ (night, ok tt))
assign-value_date_time_example =
    assign-value_date_time early night DateTime.reset
      (omega arith, omega arith, omega arith, omega arith, omega arith, omega arith)

-- ===== src/Date.antt =====
-- `DateParam` of include/sparam.hpp and src/sparam.cpp, but for `now`, `addDay` and
-- `formattedValue`. The three fields are `unsigned short`.
pub mod Order
pub mod Days
pub mod Gregorian
pub mod Sum
pub mod Printed
use mathlib.Core.Option
use pparam.Prelude.{
  ℕ, zero, suc, ◌+◌, ◌-◌, ◌*◌, ◌/◌, ◌%◌, ◌<◌, Bool, true, false, not, ◌&&◌, ◌||◌, Option, none,
  some, List, [], ◌∷◌, ◌++◌, Text, text, ltb, ◌==◌, if◌then◌else◌,
}
use pparam.Prelude.Int.{ℤ, pos, negsuc, neg_ℕ, to_unsigned}
use pparam.Prelude.Scan.{scan_fields, print_int_pad, sprintf_into}
use pparam.Exception.{Result, ok, err, exception, trace_point}
use pparam.Time.{u8, u16, u64, to_long}

pub record Date : Type 0 where
  pub year : ℕ
  pub month : ℕ
  pub day : ℕ

abbrev pub IsTyped : Date → Type 0
IsTyped t = (t.year < u16) × (t.month < u16) × (t.day < u16)

abbrev pub date : ℕ → ℕ → ℕ → Date
date a_year a_month a_day = record { day = a_day; month = a_month; year = a_year }

unfoldable pub is_leap_year : ℕ → Bool
is_leap_year y = ((y % 4 == 0) && not (y % 100 == 0)) || (y % 400 == 0)

abbrev is_31 : ℕ → Bool
is_31 m = m == 1 || m == 3 || m == 5 || m == 7 || m == 8 || m == 10 || m == 12

-- `daysOfMonth(_month)` of a date in year `y`; any month that the switch does not name counts as
-- February.
unfoldable pub days_of_month : ℕ → ℕ → ℕ
days_of_month y m =
    if is_31 m
    then 31
    else if m == 4 || m == 6 || m == 9 || m == 11
    then 30
    else if is_leap_year y
    then 29
    else 28

unfoldable pub days_of_year : ℕ → ℕ
days_of_year y = if is_leap_year y then 366 else 365

-- The loop of `daysOfDate` from `index` on. `index` is an unsigned char, so that it wraps at 256;
-- `none`: the fuel ran out.
pub month_loop : ℕ → ℕ → ℕ → ℕ → ℕ → Option ℕ
month_loop zero y month index days = none
month_loop (suc fuel) y month index days =
    let rest = month_loop fuel y month ((index + 1) % u8) (days + days_of_month y index) in
    if ltb index month then rest else some days

-- The days before the loop.
pub days_before_year : ℕ → ℕ
days_before_year year =
    let y = if year == 0 then 1 else year in
    let leap = if is_leap_year ((year + (u16 - 1)) % u16) then 1 else 0 in
    (y - 1) * 365 + (y - 1) / 4 + leap

-- 256 rounds are enough wherever any number is (`Days.days_of_date_ends`).
unfoldable pub days_of_date : Date → Option ℕ
unfolding month_loop days_before_year
days_of_date t =
    Option.map (λ n. n + t.day) (month_loop 256 t.year t.month 1 (days_before_year t.year))

-- `operator-`: the difference of two unsigned longs as a long.
abbrev difference : Option ℕ → Option ℕ → Option ℤ
difference none b = none
difference (some m) none = none
difference (some m) (some n) = some (to_long ((m + (u64 - n)) % u64))

unfoldable pub minus : Date → Date → Option ℤ
minus a b = difference (days_of_date a) (days_of_date b)

-- `% 7` of a long, with the sign of the dividend.
abbrev rem_7 : ℤ → ℤ
rem_7 (pos n) = pos (n % 7)
rem_7 (negsuc n) = neg_ℕ (suc n % 7)

-- `get_weekday`, days since 1924/12/19, as an unsigned short.
unfoldable pub get_weekday : Date → Option ℕ
unfolding minus
get_weekday t = Option.map (λ z. to_unsigned u16 (rem_7 z)) (minus t (date 1924 12 19))

unfoldable pub less : Date → Date → Bool
less a b =
    if ltb a.year b.year
    then true
    else if a.year == b.year && ltb a.month b.month
    then true
    else a.year == b.year && (a.month == b.month && ltb a.day b.day)

unfoldable pub equal : Date → Date → Bool
equal a b = a.year == b.year && (a.month == b.month && a.day == b.day)

unfoldable pub not_equal : Date → Date → Bool
not_equal a b = not (a.year == b.year) || (not (a.month == b.month) || not (a.day == b.day))

unfoldable pub greater : Date → Date → Bool
greater a b =
    if ltb b.year a.year
    then true
    else if a.year == b.year && ltb b.month a.month
    then true
    else a.year == b.year && (a.month == b.month && ltb b.day a.day)

unfoldable pub greater_equal : Date → Date → Bool
unfolding less
greater_equal a b = not (less a b)

unfoldable pub less_equal : Date → Date → Bool
unfolding greater
less_equal a b = not (greater a b)

unfoldable pub is_valid : Date → Bool
is_valid t =
    if ltb t.year 1900
    then false
    else if t.month == 0 || ltb 12 t.month
    then false
    else if t.day == 0 || ltb (days_of_month t.year t.month) t.day
    then false
    else true

-- `operator+` up to the days, and the months after them.
plus_days : Date → Date → Date
plus_days a b =
    let y = (a.year + b.year) % u16 in
    let days = (a.day + b.day) % u16 in
    let month_days = days_of_month y a.month in
    if ltb month_days days
    then date y ((a.month + days / month_days) % u16) ((days % month_days + 1) % u16)
    else date y a.month days

plus_months : Date → ℕ → Date
plus_months r m =
    let month = (r.month + m) % u16 in
    if ltb 12 month
    then date ((r.year + month / 12) % u16) (month % 12) r.day
    else date r.year month r.day

unfoldable pub plus : Date → Date → Date
unfolding plus_days plus_months
plus a b = plus_months (plus_days a b) b.month

-- What `sprintf` prints for `"%04d/%02d/%02d"`.
unfoldable pub printed : Date → Text
unfolding print_int_pad
printed t =
    print_int_pad 4 (pos t.year)
    ++ (b'/' ∷ (print_int_pad 2 (pos t.month) ++ (b'/' ∷ (print_int_pad 2 (pos t.day) ++ []))))

-- `value`, through `char date[11]`.
unfoldable pub value : Date → Option Text
unfolding sprintf_into printed
value t = sprintf_into 11 (printed t)

-- `isoFormat`, which is `formattedValue("%04d-%02d-%02d")`: the buffer is as long as the format.
unfoldable pub iso_format : Date → Option Text
unfolding sprintf_into print_int_pad
iso_format t = sprintf_into 14 (
    print_int_pad 4 (pos t.year)
    ++ (b'-' ∷ (print_int_pad 2 (pos t.month) ++ (b'-' ∷ (print_int_pad 2 (pos t.day) ++ [])))))

from_fields : List ℤ → Result Date
from_fields (y ∷ m ∷ d ∷ []) = ok (date (to_unsigned u16 y) (to_unsigned u16 m) (to_unsigned u16 d))
from_fields _ =
    err (exception (text "Bad-formatted date string") (trace_point "sparam" "operator="))

-- `operator=(const string &)`. An int beyond its range is undefined in `sscanf`; here it is cut to
-- an unsigned short as any other.
unfoldable pub assign : Text → Result Date
unfolding from_fields
assign s = from_fields (scan_fields b'/' 3 s)

abbrev pub reset : Date
reset = date 0 0 0
